-- ===== src/Pcnet32/Ring/Drained.antt =====
-- What is left of a receive ring after some rounds, and one round more in front.
use frog_os.Base.{
  ℕ, zero, suc, ◌+◌, ◌-◌, ◌*◌, ◌%◌, ◌≤◌, ◌<◌, ◌≡◌, ◌≢◌, ◌⊎◌, refl, ◌∙◌, sym, ap, arith,
}
use frog_os.Base.{true, false, Bool-cases, ◌==◌, u8, u32, bit_and, bit_or}
use frog_os.Base.{eq_below, all_below, inl, inr}
use mathlib.Core.Path.{subst}
use frog_os.Memory.{Mem}
use frog_os.Memory.Laws.{IsBytes}
use frog_os.Network.Host.{Host, Handled, memory}
use frog_os.Pcnet32.{Card}
use frog_os.Pcnet32.Ring.{driver_owns}
use frog_os.Pcnet32.Ring.Slot.{slot-lt, slot_zero, slot_full, slot_next, slot_ne}
use frog_os.Pcnet32.Ring.Receive.{flags_at, message_size, IsRing, Handles, Received}

pub owns-given :
    (c : Card) (m m' : Mem) (i : ℕ)
    → IsBytes m
    → m' (flags_at c i) ≡ u8 (bit_or (m (flags_at c i)) 0x80)
    → driver_owns m' c.rdes i ≡ false
unfolding driver_owns all_below
owns-given c m m' i b e =
    let at : c.rdes + (16 * i + 7) ≡ flags_at c i = omega arith in
    let top =
      eq_below 256 (λ x. bit_and (u8 (bit_or x 0x80)) 0x80) (λ x. 0x80) (m (flags_at c i)) refl
        (b (flags_at c i)) in
    rw (at, e, top) refl

pub owns-same :
    (c : Card) (m m' : Mem) (i : ℕ)
    → m' (flags_at c i) ≡ m (flags_at c i)
    → driver_owns m' c.rdes i ≡ driver_owns m c.rdes i
unfolding driver_owns
owns-same c m m' i e =
    let at : c.rdes + (16 * i + 7) ≡ flags_at c i = omega arith in rw (at, e) refl

-- The descriptors from `p` on, of which the driver owned the first `taken` and, when the loop has not
-- made all its `n` rounds, not the next: these are given back to the card, the others are as they were,
-- and the next round starts behind them.
pub record IsDrained (c : Card) (n p : ℕ) (h t : Host Card) : Type 0 where
  pub taken : ℕ
  pub bound : taken ≤ n
  pub owned :
      (i : ℕ) → i < taken → driver_owns (memory h) c.rdes ((p + i) % c.rx_buffer_count) ≡ true
  pub stop : (taken ≡ n) ⊎ (driver_owns (memory h) c.rdes ((p + taken) % c.rx_buffer_count) ≡ false)
  pub given :
      (i : ℕ) → i < taken → driver_owns (memory t) c.rdes ((p + i) % c.rx_buffer_count) ≡ false
  pub kept :
      (i : ℕ)
      → taken ≤ i
      → i < c.rx_buffer_count
      → driver_owns (memory t) c.rdes ((p + i) % c.rx_buffer_count)
        ≡ driver_owns (memory h) c.rdes ((p + i) % c.rx_buffer_count)
  pub next :
      (q : ℕ) × (t.card
        ≡ record c { tx_buffer_ptr = q; rx_buffer_ptr = (p + taken) % c.rx_buffer_count })
  pub counted : u32 t.dev.rx_packets ≡ u32 (h.dev.rx_packets + taken)

-- The loop stops at once.
pub here-IsDrained :
    (c : Card) (n p q : ℕ) (h : Host Card)
    → p < c.rx_buffer_count
    → h.card ≡ record c { tx_buffer_ptr = q }
    → (0 ≡ n) ⊎ (driver_owns (memory h) c.rdes p ≡ false)
    → IsDrained c n p h (record h { card = record h.card { rx_buffer_ptr = p } })
here-IsDrained c n p q h below on stop =
    let at = slot_zero p c.rx_buffer_count below in
    record {
      taken = 0;
      bound = omega arith;
      owned = λ i lt. absurd (omega arith);
      stop = rw at stop;
      given = λ i lt. absurd (omega arith);
      kept = λ i lo hi. refl;
      next = (q, rw at (ap (λ (k : Card). record k { rx_buffer_ptr = p }) on));
      counted = omega arith;
    }

-- The first number and all the later ones.
first_and_later : (P : ℕ → Type 0) → P 0 → ((i : ℕ) → P (i + 1)) → (i : ℕ) → P i
first_and_later P first later zero = first
first_and_later P first later (suc i) = subst P (omega arith) (later i)

-- The frames that wait have a header and a checksum, 18 bytes, and fit into their buffers.
abbrev pub AllFit : Card → Host Card → Type 0
AllFit c h =
    (i : ℕ)
    → i < c.rx_buffer_count
    → driver_owns (memory h) c.rdes i ≡ true
    → (18 ≤ message_size c (memory h) i) × (message_size c (memory h) i ≤ 1600)

-- A round at `p` and then the loop from the next place on.
module _ (c : Card) (process : ℕ → ℕ → Host Card → Handled Card) (Inv : Host Card → Type 0)
    (r : IsRing c) (s : Handles c process Inv) where
  module _ (n p : ℕ) (h k t : Host Card) (v : Inv h) (below : p < c.rx_buffer_count)
      (room : n + 1 ≤ c.rx_buffer_count) (own : driver_owns (memory h) c.rdes p ≡ true)
      (g : Received c process Inv r s p h k)
      (d : IsDrained c n ((p + 1) % c.rx_buffer_count) k t) where
    place : ℕ → ℕ
    place i = (p + i) % c.rx_buffer_count

    -- The round does not change who owns another descriptor.
    round-other :
        (i : ℕ)
        → i + 1 < c.rx_buffer_count
        → driver_owns (memory k) c.rdes (((p + 1) % c.rx_buffer_count + i) % c.rx_buffer_count)
          ≡ driver_owns (memory h) c.rdes (place (i + 1))
    unfolding place
    round-other i lt =
        let ne = slot_ne p (i + 1) c.rx_buffer_count below (omega arith) lt in
        let inside = slot-lt p (i + 1) c.rx_buffer_count below in
        let x = (p + (i + 1)) % c.rx_buffer_count in
        ap (driver_owns (memory k) c.rdes) (slot_next p i c.rx_buffer_count)
        ∙ owns-same c (memory h) (memory k) x
            (g.others (flags_at c x) (omega arith, omega arith) (λ e. absurd (omega arith)))

    -- The descriptor of the round itself comes last, and the rest of the loop leaves it to the card.
    round-own : driver_owns (memory t) c.rdes p ≡ false
    round-own =
        let last = c.rx_buffer_count - 1 in
        let whole : ((p + 1) % c.rx_buffer_count + last) % c.rx_buffer_count ≡ p =
          slot_next p last c.rx_buffer_count
          ∙ ap (λ (x : ℕ). (p + x) % c.rx_buffer_count) (omega arith)
          ∙ slot_full p c.rx_buffer_count below in
        sym (ap (driver_owns (memory t) c.rdes) whole)
        ∙ d.kept last (omega (arith, d.bound)) (omega arith)
        ∙ ap (driver_owns (memory k) c.rdes) whole
        ∙ owns-given c (memory h) (memory k) p (s.bytes h v) g.given

    round-stop :
        (d.taken ≡ n)
          ⊎ (driver_owns
                (memory k)
                c.rdes
                (((p + 1) % c.rx_buffer_count + d.taken) % c.rx_buffer_count)
              ≡ false)
        → (d.taken + 1 ≡ n + 1) ⊎ (driver_owns (memory h) c.rdes (place (d.taken + 1)) ≡ false)
    round-stop (inl all) = inl (omega arith)
    round-stop (inr card) = elim (Bool-cases (d.taken == n)) [
      | inl all ↦ inl (ground arith)
      | inr some ↦ inr (
          sym (round-other d.taken (let ne : d.taken ≢ n = ground arith in omega (arith, d.bound)))
          ∙ card)
    ]

    pub round-IsDrained : IsDrained c (n + 1) p h t
    unfolding place
    round-IsDrained =
        let at = λ (i : ℕ). ap (driver_owns (memory t) c.rdes) (slot_next p i c.rx_buffer_count) in
        let zeroth = slot_zero p c.rx_buffer_count below in
        let (q, e) = d.next in
        record {
          taken = d.taken + 1;
          bound = omega (arith, d.bound);
          owned =
              first_and_later
                (λ i.
                  i < d.taken + 1
                  → driver_owns (memory h) c.rdes ((p + i) % c.rx_buffer_count) ≡ true)
                (λ lt. rw zeroth own)
                (λ i lt. sym (round-other i (omega (arith, d.bound))) ∙ d.owned i (omega arith));
          stop = round-stop d.stop;
          given =
              first_and_later
                (λ i.
                  i < d.taken + 1
                  → driver_owns (memory t) c.rdes ((p + i) % c.rx_buffer_count) ≡ false)
                (λ lt. rw zeroth round-own) (λ i lt. sym (at i) ∙ d.given i (omega arith));
          kept =
              first_and_later
                (λ i.
                  d.taken + 1 ≤ i
                  → i < c.rx_buffer_count
                  → driver_owns (memory t) c.rdes ((p + i) % c.rx_buffer_count)
                    ≡ driver_owns (memory h) c.rdes ((p + i) % c.rx_buffer_count))
                (λ lo hi. absurd (omega arith))
                (λ i lo hi. sym (at i) ∙ d.kept i (omega arith) (omega arith) ∙ round-other i hi);
          next = (
            q,
            e
                ∙ ap (λ (x : ℕ). record c { tx_buffer_ptr = q; rx_buffer_ptr = x })
                    (slot_next p d.taken c.rx_buffer_count),
          );
          counted = omega (arith, d.counted, g.counted);
        }
