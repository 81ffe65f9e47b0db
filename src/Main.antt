-- ===== src/Main.antt =====
-- cmain.c: the commands of the main loop. What printf shows is the parameter `shown`, by what prints it;
-- the commands of the other files that only print are among these.
pub mod Drain
mod Tests
use frog_os.Base.{ℕ, zero, suc, bit_and, ◌==◌, if◌then◌else◌, List, [], ◌∷◌, Bool, false}
use frog_os.Irq.{Bus}
use frog_os.Console.{Screen, putch, puts}
use frog_os.Keyboard.Keys
use frog_os.Keyboard.Queue.{Ring, is_empty, dequeue}

-- What is only printed; `syscall` is what the handler of the interrupt 48 prints, which the key s raises.
pub data Shown : Type 0 where
  rebooting times syscall mem net_stats info : Shown

-- The screen, the ports and the interrupt flag.
pub record Machine (bus : Bus) : Type 0 where
  pub screen : Screen
  pub ports : bus.State
  pub flag : Bool

-- A command goes on, returns from `cmain`, or divides by zero.
pub data Turn (bus : Bus) : Type 0 where
  going returned trapped : Machine bus → Turn bus
  out_of_fuel : Turn bus

-- The loop goes on only from `going`; `x` is what is left of the keys.
abbrev pub and_then :
    {bus : Bus} {X : Type 0} → Turn bus → X → (Machine bus → Turn bus × X) → Turn bus × X
and_then (going m) x k = k m
and_then (returned m) x k = (returned m, x)
and_then (trapped m) x k = (trapped m, x)
and_then out_of_fuel x k = (out_of_fuel, x)

abbrev pause_text : List ℕ
pause_text = 0x50 ∷ 0x61 ∷ 0x75 ∷ 0x73 ∷ 0x65 ∷ 0xa ∷ 0 ∷ []

abbrev print_screen_text : List ℕ
print_screen_text =
    0x50 ∷ 0x72 ∷ 0x69 ∷ 0x6e ∷ 0x74 ∷ 0x20 ∷ 0x53 ∷ 0x63 ∷ 0x72 ∷ 0x65 ∷ 0x65 ∷ 0x6e ∷ 0xa ∷ 0 ∷ []

abbrev halting_text : List ℕ
halting_text = 0x48 ∷ 0x61 ∷ 0x6c ∷ 0x74 ∷ 0x69 ∷ 0x6e ∷ 0x67 ∷ 0x3a ∷ 0 ∷ []

abbrev divide_text : List ℕ
divide_text =
    0x44 ∷ 0x69 ∷ 0x76 ∷ 0x69 ∷ 0x64 ∷ 0x65 ∷ 0x20 ∷ 0x62 ∷ 0x79 ∷ 0x20 ∷ 0x7a ∷ 0x65 ∷ 0x72 ∷ 0x6f
    ∷ 0x3a ∷ 0 ∷ []

module _ (bus : Bus) (shown : Shown → Screen → Screen) where
  abbrev put_text : List ℕ → Machine bus → Machine bus
  put_text text m = record m { screen = puts text m.screen }

  abbrev show : Shown → Machine bus → Machine bus
  show what m = record m { screen = shown what m.screen }

  unfoldable pub reboot : Machine bus → Machine bus
  reboot m = record m { screen = shown rebooting m.screen; ports = bus.outportb 0x64 0xfe m.ports }

  -- `int $48`: its handler prints, and `irq_handler` signals the end of the interrupt to both
  -- controllers.
  unfoldable pub raise_syscall : Machine bus → Machine bus
  raise_syscall m = record m {
    screen = shown syscall m.screen;
    ports = bus.outportb 0x20 0x20 (bus.outportb 0xa0 0x20 m.ports);
  }

  unfoldable pub default_key : ℕ → Machine bus → Machine bus
  default_key c m =
      if bit_and c 0x80 == 0 then record m { screen = putch (bit_and c 0xff) m.screen } else m

  -- The switch on `c&0x7f`; the case 'c' falls through to the default.
  unfoldable pub handle_key : ℕ → Machine bus → Turn bus
  unfolding reboot raise_syscall default_key
  handle_key c m =
      let k = bit_and c 0x7f in
      if k == 0x72
      then going (reboot m)
      else if k == Keys.key_pause
      then going (put_text pause_text m)
      else if k == Keys.key_prtsc
      then going (put_text print_screen_text m)
      else if k == 0x68
      then returned (put_text halting_text m)
      else if k == 0x7a
      then trapped (put_text divide_text m)
      else if k == 0x74
      then going (show times m)
      else if k == 0x73
      then going (raise_syscall m)
      else if k == 0x6d
      then going (show mem m)
      else if k == 0x6e
      then going (show net_stats m)
      else if k == 0x70
      then going (show info m)
      else if k == 0x63
      then going (default_key c (record m { flag = false }))
      else going (default_key c m)

  -- The inner loop, without keys that come in while it runs.
  unfoldable pub process_keys : ℕ → Ring → Machine bus → Turn bus × Ring
  process_keys zero r m = (out_of_fuel, r)
  process_keys (suc n) r m =
      let (c, r', flag) = dequeue r m.flag in
      let turn = handle_key c (record m { flag = flag }) in
      if is_empty r then (going m, r) else and_then turn r' (λ m'. process_keys n r' m')
