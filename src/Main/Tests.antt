-- ===== src/Main/Tests.antt =====
-- The main loop's theorems at concrete keys.
use frog_os.Base.{ℕ, ◌≡◌, refl, arith, inl, [], ◌∷◌, replicate, true}
use frog_os.Irq.{Bus}
use frog_os.Console.{Screen}
use frog_os.Keyboard.Queue.{Ring}
use frog_os.Keyboard.Queue.Refine.{IsValid}
use frog_os.Main.{Shown, Machine, going, handle_key, process_keys}
use frog_os.Main.Drain.{Drains, process_keys-Drains, handle_key-silent}

-- Ports that keep the byte last written, and a printf that shows nothing.
abbrev one_latch : Bus
one_latch = record { State = ℕ; inportb = λ p σ. (σ, σ); outportb = λ p v σ. v }

abbrev nothing : Shown → Screen → Screen
nothing what s = s

abbrev machine : Machine one_latch
machine = record {
  screen = record { video = replicate 2000 0; csr_x = 0; csr_y = 0; ports = [] };
  ports = 0;
  flag = true;
}

-- The keys 'a', 'h' and 'b'.
abbrev three_keys : Ring
three_keys = record { buffer = 0x61 ∷ 0x68 ∷ 0x62 ∷ replicate 125 0; size = 3; head = 0; tail = 3 }

three_keys-IsValid : IsValid three_keys
three_keys-IsValid = record {
  full_length = refl;
  head_in = omega arith;
  size_in = omega arith;
  tail_at = refl;
}

process_keys-Drains_example :
    Drains one_latch nothing three_keys machine
      (process_keys one_latch nothing 4 three_keys machine)
process_keys-Drains_example =
    process_keys-Drains one_latch nothing 4 three_keys machine three_keys-IsValid (omega arith)

handle_key-silent_example : handle_key one_latch nothing 0x280 machine ≡ going machine
handle_key-silent_example = handle_key-silent one_latch nothing 0x280 machine (inl refl)
