-- ===== src/Pcnet32/Ring/Drain.antt =====
-- What the receive loop does to the ring: it hands the frames that wait at the ring's head over.
use frog_os.Base.{ℕ, zero, suc, ◌+◌, ◌*◌, ◌%◌, ◌≤◌, ◌<◌, ◌≡◌, ◌≢◌, refl, ◌∙◌, sym, ap, arith}
use frog_os.Base.{true, false, Bool-cases, leb, ◌==◌, if◌then◌else◌, u16}
use frog_os.Base.{inl, inr}
use mathlib.Core.Path.{subst}
use frog_os.Network.Host.{Host, Handled, handled, memory}
use frog_os.Pcnet32.{Card}
use frog_os.Pcnet32.Ring.{driver_owns, receive, receive_all}
use frog_os.Pcnet32.Ring.Slot.{next_slot, slot-lt, slot_zero, slot_full}
use frog_os.Pcnet32.Ring.Receive.{IsRing, Handles, Received, flags_at}
use frog_os.Pcnet32.Ring.Receive.{receive-Received}
use frog_os.Pcnet32.Ring.Drained.{
  IsDrained, AllFit, owns-given, owns-same, here-IsDrained, round-IsDrained,
}

module _ (c : Card) (process : ℕ → ℕ → Host Card → Handled Card) (Inv : Host Card → Type 0)
    (r : IsRing c) (s : Handles c process Inv) where
  Received-AllFit :
      (p : ℕ) (h k : Host Card) → Inv h → Received c process Inv r s p h k → AllFit c h → AllFit c k
  Received-AllFit p h k v g fit i lt own = elim (Bool-cases (i == p)) [
    | inl here ↦
        let same : i ≡ p = ground arith in
        let given = owns-given c (memory h) (memory k) p (s.bytes h v) g.given in
        let lost : driver_owns (memory k) c.rdes p ≡ true =
          subst (λ x. driver_owns (memory k) c.rdes x ≡ true) same own in
        absurd (cc)
    | inr other ↦
        let at = c.rdes + 16 * i in
        let ne : i ≢ p = ground arith in
        let low = g.others (at + 8) (omega arith, omega arith) (λ e. absurd (omega arith)) in
        let high = g.others (at + 9) (omega arith, omega arith) (λ e. absurd (omega arith)) in
        let flags =
          g.others (flags_at c i) (omega arith, omega arith) (λ e. absurd (omega arith)) in
        rw (low, high) (fit i lt (sym (owns-same c (memory h) (memory k) i flags) ∙ own))
  ]

  -- The loop's three ways on.
  receive_all-end :
      (p : ℕ) (h : Host Card)
      → receive_all process 0 p h
        ≡ handled (record h { card = record h.card { rx_buffer_ptr = p } })
  unfolding receive_all
  receive_all-end p h = refl

  receive_all-stop :
      (n p : ℕ) (h : Host Card)
      → h.card.rdes ≡ c.rdes
      → driver_owns (memory h) c.rdes p ≡ false
      → receive_all process (suc n) p h
        ≡ handled (record h { card = record h.card { rx_buffer_ptr = p } })
  unfolding receive_all
  receive_all-stop n p h at card =
      let e : driver_owns (memory h) h.card.rdes p ≡ false =
        ap (λ (a : ℕ). driver_owns (memory h) a p) at ∙ card in
      rw e refl

  receive_all-more :
      (n p x : ℕ) (h k : Host Card)
      → h.card.rdes ≡ c.rdes
      → driver_owns (memory h) c.rdes p ≡ true
      → receive process p h ≡ handled k
      → (if leb h.card.rx_buffer_count (u16 (p + 1)) then 0 else u16 (p + 1)) ≡ x
      → receive_all process (suc n) p h ≡ receive_all process n x k
  unfolding receive_all
  receive_all-more n p x h k at own e wrap =
      let o : driver_owns (memory h) h.card.rdes p ≡ true =
        ap (λ (a : ℕ). driver_owns (memory h) a p) at ∙ own in
      rw (o, e, wrap) refl

  -- The property of the host holds up to the last write, of the place where the next round starts.
  abbrev pub Ended : Host Card → Type 0
  Ended t =
      (u : Host Card) × Inv u
      × (t ≡ record u { card = record u.card { rx_buffer_ptr = t.card.rx_buffer_ptr } })

  loop-IsDrained :
      (n p : ℕ) (h : Host Card)
      → Inv h
      → AllFit c h
      → p < c.rx_buffer_count
      → n ≤ c.rx_buffer_count
      → (t : Host Card) × (receive_all process n p h ≡ handled t) × IsDrained c n p h t × Ended t
  loop-IsDrained zero p h v fit below room =
      let (q, on) = s.card h v in
      (_, receive_all-end p h, here-IsDrained c 0 p q h below on (inl refl), (h, v, refl))
  loop-IsDrained (suc n) p h v fit below room =
      let (q, on) = s.card h v in
      let at : h.card.rdes ≡ c.rdes = ap (λ (k : Card). k.rdes) on in
      elim (Bool-cases (driver_owns (memory h) c.rdes p)) [
        | inr card ↦ (
          _,
          receive_all-stop n p h at card,
          here-IsDrained c (suc n) p q h below on (inr card),
          (h, v, refl),
        )
        | inl own ↦
            let (enough, small) = fit p below own in
            let (k, e, g) = receive-Received c process Inv r s p h v below enough small in
            let (t, all, d, ended) =
              loop-IsDrained n ((p + 1) % c.rx_buffer_count) k g.inv (Received-AllFit p h k v g fit)
                (slot-lt p 1 c.rx_buffer_count below) (omega arith) in
            let wrap =
              ap (λ (x : Card). if leb x.rx_buffer_count (u16 (p + 1)) then 0 else u16 (p + 1)) on
              ∙ next_slot p c.rx_buffer_count below r.count in
            (
              t,
              receive_all-more n p ((p + 1) % c.rx_buffer_count) h k at own e wrap ∙ all,
              subst (λ m. IsDrained c m p h t) (omega arith)
                  (round-IsDrained c process Inv r s n p h k t v below (omega arith) own g d),
              ended,
            )
      ]

-- No frame waits at the place where the next round starts.
IsDrained-head :
    (c : Card) (p : ℕ) (h t : Host Card)
    → p < c.rx_buffer_count
    → IsDrained c c.rx_buffer_count p h t
    → driver_owns (memory t) c.rdes t.card.rx_buffer_ptr ≡ false
IsDrained-head c p h t below d =
    let n = c.rx_buffer_count in
    let (q, e) = d.next in
    let at : driver_owns (memory t) c.rdes t.card.rx_buffer_ptr
        ≡ driver_owns (memory t) c.rdes ((p + d.taken) % n) =
      ap (λ (k : Card). driver_owns (memory t) c.rdes k.rx_buffer_ptr) e in
    at ∙ elim (Bool-cases (d.taken == n)) [
      | inl all ↦
          ap (λ (x : ℕ). driver_owns (memory t) c.rdes x)
            (ap (λ (x : ℕ). (p + x) % n) (ground arith)
              ∙ slot_full p n below
              ∙ sym (slot_zero p n below))
          ∙ d.given 0 (ground arith)
      | inr some ↦
          let ne : d.taken ≢ n = ground arith in
          elim d.stop [
            | inl all ↦ absurd (ne all)
            | inr card ↦ d.kept d.taken (omega arith) (omega (arith, d.bound)) ∙ card
          ]
    ]

-- The receive loop, from the place `p` of a ring whose waiting frames have a header and a checksum and
-- fit into their buffers, for code that handles such a frame, returns, and leaves the descriptors alone:
-- the loop returns with the frames that waited from `p` on, up to the first descriptor that the card
-- owned, given back to the card and counted, the other descriptors owned as before, and no frame at
-- the new place. A property that this code and the loop's writes keep holds up to the last write.
pub receive_all-IsDrained :
    (c : Card) (process : ℕ → ℕ → Host Card → Handled Card) (Inv : Host Card → Type 0)
    → (r : IsRing c) → (s : Handles c process Inv) → (h : Host Card) → Inv h
    → AllFit c h
    → (p : ℕ) → p < c.rx_buffer_count
    → (t : Host Card) × (receive_all process c.rx_buffer_count p h ≡ handled t)
      × IsDrained c c.rx_buffer_count p h t
      × (driver_owns (memory t) c.rdes t.card.rx_buffer_ptr ≡ false)
      × Ended c process Inv r s t
receive_all-IsDrained c process Inv r s h v fit p below =
    let (t, e, d, ended) =
      loop-IsDrained c process Inv r s c.rx_buffer_count p h v fit below (omega arith) in
    (t, e, d, IsDrained-head c p h t below d, ended)
