-- ===== src/Keyboard/Decoder/Laws.antt =====
-- The behaviour of `decode` on any scan code: it ends, keeps the decoder well formed and queues at
-- most one key, or it reads past a scan code table.
use frog_os.Base.{ℕ, ◌%◌, ◌≤◌, ◌<◌, ◌≡◌, ◌≢◌, ◌⊎◌, refl, ◌∙◌, ap, sym}
use frog_os.Base.{arith, inl, inr}
use frog_os.Keyboard.Decoder.{Kbd, Outcome, done, overrun, out_of_fuel, goto, enqueue_key, plain}
use frog_os.Keyboard.Decoder.{is_prefix, ladder, decode}
use frog_os.Keyboard.Decoder.Effect.{Effect, idle, key, shift}
use frog_os.Keyboard.Decoder.Invariant.{IsState, IsWell, AtMostOneKey, Next, Effect-keeps}
use frog_os.Keyboard.Decoder.Invariant.{plain-overrun, ladder-Next}

-- The recursive call is made in the state 0, where it makes no further one.
ladder_again : (c : ℕ) (k : Kbd) (x y : Outcome) → ladder c (goto k 0) x ≡ ladder c (goto k 0) y
unfolding ladder
ladder_again c k x y = ground arith

plain-ne-out_of_fuel : (c : ℕ) (k : Kbd) → plain c k ≢ out_of_fuel
unfolding plain
plain-ne-out_of_fuel c k = ground arith

ladder-ne-out_of_fuel :
    (c : ℕ) (k : Kbd) (again : Outcome)
    → (k.state ≢ 0 → again ≢ out_of_fuel)
    → ladder c k again ≢ out_of_fuel
unfolding ladder
ladder-ne-out_of_fuel c k again h = ground (arith, plain-ne-out_of_fuel c k)

-- `decode` ends after at most two rounds, whatever the code and the state, and satisfies its
-- recursion: the ladder with the call of `decode` in the state 0 as its last branch.
pub decode_ends :
    (c : ℕ) (k : Kbd) → (decode c k ≡ ladder c k (decode c (goto k 0))) × (decode c k ≢ out_of_fuel)
unfolding decode
decode_ends c k = (
  ap (ladder c k) (ladder_again c k _ _),
  ladder-ne-out_of_fuel c k _ (λ n. ladder-ne-out_of_fuel c (goto k 0) _ (λ m. absurd (m refl))),
)

-- What the call in the state 0 does, it does to `k` up to the state.
Effect-goto :
    {k k' : Kbd} (s : ℕ) → Effect (goto k 0) k' → (k₁ : Kbd) × Effect k k₁ × (goto k₁ s ≡ goto k' s)
unfolding enqueue_key
Effect-goto {k} s idle = (k, idle, refl)
Effect-goto {k} s (key d lo hi) = (enqueue_key k d, key d lo hi, refl)
Effect-goto {k} s (shift t h) = (record k { shiftstate = t }, shift t h, refl)

Next-goto : {k : Kbd} {o : Outcome} → Next (goto k 0) o → Next k o
Next-goto (k', s, e, st, r) =
    let (k₁, e₁, same) = Effect-goto s e in (k₁, s, e₁, st, r ∙ ap done (sym same))

-- A code that the tables hold, or that the state or the code itself keeps away from them.
abbrev pub Reads : ℕ → Kbd → Type 0
Reads c k = (k.state ≡ 0xe0) ⊎ (c ≡ 0xe0) ⊎ (c ≡ 0xe1) ⊎ (c % 128 < 0x59)

Reads-again : (c : ℕ) (k : Kbd) → Reads c k → k.state ≢ 0xe0 → Reads c (goto k 0)
Reads-again c k (inl e) ns = absurd (ns e)
Reads-again c k (inr h) ns = inr h

decode-Next : (c : ℕ) (k : Kbd) → IsWell k → c < 256 → Reads c k → Next k (decode c k)
unfolding decode
decode-Next c k w small reads = ladder-Next c k _ w.bits small reads w.state λ n ns. Next-goto (
    ladder-Next c (goto k 0) _ w.bits small (Reads-again c k reads ns) (inl refl)
      (λ m ms. absurd (m refl)))

-- From a well-formed decoder, a code within the tables (or a prefix code, or any code after the
-- prefix 0xE0) is decoded: the decoder stays well formed, and at most one key is queued.
pub decode-IsWell :
    (c : ℕ) (k : Kbd)
    → IsWell k
    → c < 256
    → Reads c k
    → (k' : Kbd) × (decode c k ≡ done k') × IsWell k' × AtMostOneKey k k'
decode-IsWell c k w small reads = finish (decode-Next c k w small reads)
  where
    finish :
        Next k (decode c k) → (k' : Kbd) × (decode c k ≡ done k') × IsWell k' × AtMostOneKey k k'
    finish (k', s, e, st, r) =
        let (well, one) = Effect-keeps s w.ring w.bits st e in (goto k' s, r, well, one)

ladder-overrun :
    (c : ℕ) (k : Kbd) (again : Outcome)
    → IsState k.state
    → c < 256
    → 0x59 ≤ c % 128
    → c ≢ 0xe0
    → c ≢ 0xe1
    → k.state ≢ 0xe0
    → (k.state ≢ 0 → again ≡ overrun)
    → ladder c k again ≡ overrun
unfolding ladder is_prefix
ladder-overrun c k again st small past n0 n1 ns rest = ground (arith, plain-overrun c k small past)

-- In a well-formed decoder, a scan code whose low seven bits are 0x59 or more, and that is no
-- prefix and follows no 0xE0, is looked up past the end of a scan code table.
pub decode-overrun :
    (c : ℕ) (k : Kbd)
    → IsWell k
    → c < 256
    → 0x59 ≤ c % 128
    → c ≢ 0xe0
    → c ≢ 0xe1
    → k.state ≢ 0xe0
    → decode c k ≡ overrun
unfolding decode
decode-overrun c k w small past n0 n1 ns = ladder-overrun c k _ w.state small past n0 n1 ns λ n.
    ladder-overrun c (goto k 0) _ (inl refl) small past n0 n1 (omega arith) (λ m. absurd (m refl))
