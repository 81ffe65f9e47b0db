-- ===== src/Main/Drain.antt =====
-- The keys that wait are handled in their order, and the keys that no command hears.
use frog_os.Base.{
  ℕ, zero, suc, ◌+◌, ◌*◌, ◌/◌, ◌%◌, ◌^◌, ◌<◌, ◌≡◌, ◌≢◌, ◌⊎◌, refl, ◌∙◌, sym, ap, arith,
}
use frog_os.Base.{List, [], ◌∷◌, length, Bool, Bool-cases, ◌==◌, true, false, inl, inr}
use frog_os.Base.{bit_and, bit_and_mask, bit_and_split, bit_and-zero}
use frog_os.Irq.{Bus}
use frog_os.Console.{Screen}
use frog_os.Keyboard.Fifo
use frog_os.Keyboard.Keys
use frog_os.Keyboard.Queue.{Ring, is_empty, dequeue}
use frog_os.Keyboard.Queue.Refine.{
  IsValid, contents, dequeue-IsValid, dequeue_refines, length-contents,
}
use frog_os.Main.{Shown, Machine, Turn, going, returned, trapped, out_of_fuel}
use frog_os.Main.{handle_key, default_key, process_keys, and_then}

no_length : (q : List ℕ) → length q ≡ 0 → q ≡ []
no_length [] e = refl
no_length (c ∷ q) e = absurd (omega arith)

first_and_rest : (q : List ℕ) → length q ≢ 0 → (Fifo.dequeue q).0 ∷ (Fifo.dequeue q).1 ≡ q
unfolding Fifo.dequeue
first_and_rest [] ne = absurd (ne refl)
first_and_rest (c ∷ q) ne = refl

dequeue-flag : (r : Ring) (flag : Bool) → (r.size == 0) ≡ false → (dequeue r flag).2 ≡ true
unfolding dequeue
dequeue-flag r flag e = rw e refl

dequeue-size :
    (r : Ring) (flag : Bool) → (r.size == 0) ≡ false → (dequeue r flag).1.size + 1 ≡ r.size
unfolding dequeue
dequeue-size r flag e = ground arith

-- A valid ring is empty, or `kbd_dequeue` takes its first key and enables interrupts.
dequeue_cases :
    (r : Ring) (flag : Bool)
    → IsValid r
    → ((is_empty r ≡ true) × (contents r ≡ []))
      ⊎ ((is_empty r ≡ false)
          × (contents r ≡ (dequeue r flag).0 ∷ contents (dequeue r flag).1)
          × ((dequeue r flag).2 ≡ true)
          × ((dequeue r flag).1.size + 1 ≡ r.size))
unfolding is_empty
dequeue_cases r flag v = elim (Bool-cases (r.size == 0)) [
  | inl e ↦ inl (e, no_length (contents r) (length-contents r ∙ ground arith))
  | inr e ↦
      let pop = ap (λ (p : ℕ × List ℕ). p.0 ∷ p.1) (dequeue_refines r flag v) in
      let some_left : length (contents r) ≢ 0 = rw (length-contents r) (ground arith) in
      inr (
        e,
        sym (pop ∙ first_and_rest (contents r) some_left),
        dequeue-flag r flag e,
        dequeue-size r flag e,
      )
]

module _ (bus : Bus) (shown : Shown → Screen → Screen) where
  -- Handling keys in their order, with interrupts enabled before each, until one ends the loop; the
  -- keys that are left.
  unfoldable pub handle_all : List ℕ → Machine bus → Turn bus × List ℕ
  handle_all [] m = (going m, [])
  handle_all (c ∷ cs) m =
      and_then (handle_key bus shown c (record m { flag = true })) cs (λ m'. handle_all cs m')

  -- The loop does to the ring what `handle_all` does to its keys.
  abbrev pub Drains : Ring → Machine bus → Turn bus × Ring → Type 0
  Drains r m o =
      (o.0 ≡ (handle_all (contents r) m).0)
      × (contents o.1 ≡ (handle_all (contents r) m).1)
      × IsValid o.1

  -- A key's turn, and the rest of the loop behind it.
  and_then-Drains :
      (r : Ring) (k : Machine bus → Turn bus × Ring) (t : Turn bus)
      → IsValid r
      → ((m : Machine bus) → Drains r m (k m))
      → let o = and_then t r k in
        let e = and_then t (contents r) (λ m. handle_all (contents r) m) in
        (o.0 ≡ e.0) × (contents o.1 ≡ e.1) × IsValid o.1
  and_then-Drains r k (going m) v rest = rest m
  and_then-Drains r k (returned m) v rest = (refl, refl, v)
  and_then-Drains r k (trapped m) v rest = (refl, refl, v)
  and_then-Drains r k out_of_fuel v rest = (refl, refl, v)

  -- From a valid ring, whose keys are fewer than the rounds, the main loop's inner loop ends: it handles
  -- the keys in their order, with interrupts enabled before each, up to one that halts or divides by
  -- zero, and leaves a valid ring with the keys behind that one, empty when there is none.
  pub process_keys-Drains :
      (n : ℕ) (r : Ring) (m : Machine bus)
      → IsValid r
      → r.size < n
      → Drains r m (process_keys bus shown n r m)
  unfolding process_keys handle_all
  process_keys-Drains zero r m v h = absurd (omega arith)
  process_keys-Drains (suc n) r m v h = elim (dequeue_cases r m.flag v) [
    | inl (e, nil) ↦ rw (nil, e) (refl, nil, v)
    | inr (e, cons, on, less) ↦
        let r' = (dequeue r m.flag).1 in
        let turn = handle_key bus shown (dequeue r m.flag).0 (record m { flag = true }) in
        rw (cons, e, on)
          (and_then-Drains r' (process_keys bus shown n r') turn (dequeue-IsValid r m.flag v)
            (λ m'. process_keys-Drains n r' m' (dequeue-IsValid r m.flag v) (omega arith)))
  ]

  -- Pause and Print Screen, with any shift state above them: nothing happens, since `c&0x7f` is below
  -- their codes and the default shows no key from 0x80 to 0xff.
  pub handle_key-silent :
      (c : ℕ) (m : Machine bus)
      → (c % 256 ≡ Keys.key_pause) ⊎ (c % 256 ≡ Keys.key_prtsc)
      → handle_key bus shown c m ≡ going m
  unfolding handle_key default_key
  handle_key-silent c m key =
      let whole : c / 256 * 2 ^ 8 + c % 256 ≡ c = omega arith in
      let low : bit_and c 0x7f ≡ c % 128 = bit_and_mask 7 c in
      let parts = bit_and_split 8 (c / 256) (c % 256) 0 0x80 (omega arith) (omega arith) in
      let top : bit_and c 0x80 ≡ bit_and (c / 256) 0 * 2 ^ 8 + bit_and (c % 256) 0x80 =
        rw whole at parts in
      let none_above = bit_and-zero (c / 256) in
      elim key [
        | inl pause ↦
            let k : bit_and c 0x7f ≡ 0 = low ∙ omega arith in
            let t : bit_and c 0x80 ≡ 0x80 = top ∙ rw (none_above, pause) refl in rw (k, t) refl
        | inr print_screen ↦
            let k : bit_and c 0x7f ≡ 1 = low ∙ omega arith in
            let t : bit_and c 0x80 ≡ 0x80 = top ∙ rw (none_above, print_screen) refl in
            rw (k, t) refl
      ]
