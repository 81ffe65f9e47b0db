-- ===== src/Irq/Dispatch.antt =====
-- `irq_handler`: which handlers an interrupt calls, and in which order.
use frog_os.Base.{ℕ, zero, suc, ◌-◌, ◌≤◌, ◌<◌, ◌≡◌, refl, arith, inl, inr}
use frog_os.Base.{List, [], ◌∷◌, length, get_or, some, true, false, ◌==◌, ltb, if◌then◌else◌}
use frog_os.Base.{◌⊎◌, Bool-cases, leb}
use mathlib.Core.Path.{subst}
use frog_os.Memory.{Mem}
use frog_os.Irq.{
  Bus, Irqs, Regs, handler_of, data_of, next_of, max_handlers, exception_messages, halted, resumed,
}
use frog_os.Irq.{run_chain, end_of_interrupt, irq_handler}
use frog_os.Irq.Chain.{Chain}
use frog_os.Irq.Handlers.{Installed}

-- Two memories have the same record at an address.
abbrev pub SameRecord : Mem → Mem → ℕ → Type 0
SameRecord m m' p =
    (handler_of m p ≡ handler_of m' p) × (data_of m p ≡ data_of m' p) × (next_of m p ≡ next_of m' p)

abbrev pub SameRecords : Mem → Mem → List ℕ → Type 0
SameRecords m m' [] = Unit
SameRecords m m' (p ∷ ps) = SameRecord m m' p × SameRecords m m' ps

-- The function and the data of each record.
abbrev pub calls : Mem → List ℕ → List (ℕ × ℕ)
calls m [] = []
calls m (p ∷ ps) = (handler_of m p, data_of m p) ∷ calls m ps

module _ (bus : Bus) (call : ℕ → ℕ → Irqs bus → Irqs bus) where
  -- One call after another.
  abbrev pub call_all : List (ℕ × ℕ) → Irqs bus → Irqs bus
  call_all [] s = s
  call_all ((f, d) ∷ cs) s = call_all cs (call f d s)

  -- None of these calls rewrites the records of a chain.
  abbrev pub Spares : List ℕ → List (ℕ × ℕ) → Type 0
  Spares xs [] = Unit
  Spares xs ((f, d) ∷ cs) =
      ((s : Irqs bus) → SameRecords s.bytes (call f d s).bytes xs) × Spares xs cs

  Spares-tail : (x : ℕ) (xs : List ℕ) (cs : List (ℕ × ℕ)) → Spares (x ∷ xs) cs → Spares xs cs
  Spares-tail x xs [] h = tt
  Spares-tail x xs ((f, d) ∷ cs) (here, rest) = (λ s. (here s).1, Spares-tail x xs cs rest)

  calls_same : (m m' : Mem) (xs : List ℕ) → SameRecords m m' xs → calls m xs ≡ calls m' xs
  calls_same m m' [] h = refl
  calls_same m m' (x ∷ xs) ((f, d, n), h) = rw (f, d, calls_same m m' xs h)

  Chain-same :
      (m m' : Mem) (p : ℕ) (xs : List ℕ) → SameRecords m m' xs → Chain m p xs → Chain m' p xs
  Chain-same m m' p [] h e = e
  Chain-same m m' p (x ∷ xs) ((f, d, n), h) (e, pos, o, ch) =
      (e, pos, o, Chain-same m m' (next_of m' x) xs h (rw n at ch))

  run_chain-calls :
      (fuel p : ℕ) (xs : List ℕ) (s : Irqs bus)
      → length xs < fuel
      → Spares xs (calls s.bytes xs)
      → Chain s.bytes p xs
      → run_chain bus call fuel p s ≡ some (call_all (calls s.bytes xs) s)
  unfolding run_chain
  run_chain-calls zero p xs s l h ch = absurd (omega arith)
  run_chain-calls (suc fuel) p [] s l h e = let end : (p == 0) ≡ true = ground arith in rw end
  run_chain-calls (suc fuel) p (x ∷ xs) s l (here, others) (e, pos, o, ch) =
      let s' = call (handler_of s.bytes x) (data_of s.bytes x) s in
      let ((_, _, n), same) = here s in
      let on : (x == 0) ≡ false = ground arith in
      let ch' : Chain s'.bytes (next_of s'.bytes x) xs =
        Chain-same s.bytes s'.bytes (next_of s'.bytes x) xs same (rw n at ch) in
      let spares =
        subst (Spares xs) (calls_same s.bytes s'.bytes xs same)
          (Spares-tail x xs (calls s.bytes xs) others) in
      let rest = run_chain-calls fuel (next_of s'.bytes x) xs s' (omega arith) spares ch' in
      rw (e, on, calls_same s.bytes s'.bytes xs same) rest

  -- An interrupt from 32 on, whose line's chain is shorter than the fuel and whose handlers, called
  -- with their data, leave the chain's records alone, calls every handler of the chain once with its
  -- data, in the chain's order. Then it writes 0x20, the end of the interrupt, to port 0xa0 of the
  -- second controller if the interrupt is 40 or above, and to port 0x20 of the first in any case. One below 32 stops the machine with its
  -- exception's message; a page fault, 14, shows its error code, its address, `eip` and `eax` as well.
  pub irq_handler-calls :
      (cr2 : ℕ) (r : Regs) (xs : List ℕ) (s : Irqs bus)
      → length xs < max_handlers
      → Spares xs (calls s.bytes xs)
      → Installed bus s (r.int_no - 32) xs
      → let t = call_all (calls s.bytes xs) s in
        ((32 ≤ r.int_no)
          × (irq_handler bus call cr2 r s
              ≡ resumed (record t {
                ports =
                    bus.outportb 0x20 0x20
                      (if leb 40 r.int_no then bus.outportb 0xa0 0x20 t.ports else t.ports);
              })))
        ⊎ ((r.int_no < 32)
            × (irq_handler bus call cr2 r s
                ≡ halted
                    (get_or exception_messages r.int_no [])
                    (if r.int_no == 14 then r.err_code ∷ cr2 ∷ r.eip ∷ r.eax ∷ [] else [])))
  unfolding irq_handler end_of_interrupt
  irq_handler-calls cr2 r xs s short spares ch = elim (Bool-cases (r.int_no == 14)) [
    | inl fault ↦ inr (ground arith, rw fault refl)
    | inr other ↦ elim (Bool-cases (ltb r.int_no 32)) [
      | inl low ↦ inr (ground arith, rw (other, low) refl)
      | inr high ↦
          let run =
            run_chain-calls max_handlers (get_or s.table (r.int_no - 32) 0) xs s short spares ch in
          inl (ground arith, rw (irq_handler, other, high, run))
    ]
  ]
