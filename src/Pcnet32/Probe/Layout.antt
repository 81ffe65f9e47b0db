-- ===== src/Pcnet32/Probe/Layout.antt =====
-- Where probe_pcnet32 puts the buffers and the descriptors.
use frog_os.Base.{
  ℕ, ◌+◌, ◌<◌, ◌≤◌, ◌≡◌, refl, ◌∙◌, ap, arith, inl, inr, List, true, false, ltb, ◌==◌, ◌%◌, ◌^◌,
}
use frog_os.Memory.Laws.{IsBytes, memset-IsBytes, memset-outside}
use frog_os.Memory.{memset}
use frog_os.Ports.{Ports}
use frog_os.Alloc.{Store, alloc, returns}
use frog_os.Alloc.Bump.{IsBump, IsBump-kept, alloc_bump, alloc_bump-IsBytes}
use frog_os.Pcnet32.{Card}
use frog_os.Pcnet32.Probe.{World, Probed, probed, with_block, alloc_rings, finish_probe}

-- A block of a multiple of 16 bytes that there is room for.
pub got :
    (limit size : ℕ) (s : Store)
    → IsBump limit s
    → IsBytes s.bytes
    → s.high_mem + size < limit
    → size + 16 ≤ 2 ^ 32
    → size % 16 ≡ 0
    → (s' : Store) × (alloc size 1 s ≡ returns s.high_mem s')
      × (s'.high_mem ≡ s.high_mem + size)
      × IsBump limit s'
      × IsBytes s'.bytes
      × ((x : ℕ) → x < s.high_mem → s'.bytes x ≡ s.bytes x)
got limit size s v b room small whole = elim (alloc_bump limit s v size 0 (omega arith) small) [
  | inr (full, e) ↦ absurd (omega arith)
  | inl (enough, (s', e, next, free, same)) ↦ (
    s',
    e,
    omega arith,
    free,
    alloc_bump-IsBytes limit s v size 0 s' (omega arith) small enough e b,
    λ x lt. elim (same x) [ inl kept ↦ kept | inr (lo, hi) ↦ absurd (omega arith) ],
  )
]

-- The receive buffers from `p` on, then the transmit buffers and the descriptors of both rings.
abbrev pub laid_out : Card → ℕ → Card
laid_out c p = record c {
  rx_buffers = p;
  tx_buffers = p + 102400;
  rdes = p + 128000;
  tdes = p + 129024;
}

abbrev pub rings_size : ℕ
rings_size = 129280

abbrev pub with_store : {ports : Ports} → World ports → Store → World ports
with_store w s = record w { devices = record w.devices { store = s } }

module _ (ports : Ports) (limit code netdev priv : ℕ) (hw : List ℕ) (c : Card)
    (w : World ports) where
  with_block-found :
      (n p : ℕ) (s s' : Store) (found : ℕ → Store → Probed ports) (err : Store → Probed ports)
      → 0 < p
      → alloc n 1 s ≡ returns p s'
      → with_block ports n s found err ≡ found p s'
  with_block-found n p s s' found err pos e =
      let on : (p == 0) ≡ false = ground arith in rw (with_block, e, on) refl

  -- The four allocations, given what each returns.
  alloc_rings-four :
      (s₁ s₂ s₃ s₄ : Store)
      → let p = w.devices.store.high_mem in
        0 < p
        → 0 < s₁.high_mem
        → 0 < s₂.high_mem
        → 0 < s₃.high_mem
        → alloc 102400 1 w.devices.store ≡ returns p s₁
        → alloc 25600 1 (record { high_mem = s₁.high_mem; bytes = memset s₁.bytes p 0 102400 })
          ≡ returns s₁.high_mem s₂
        → alloc 1024 1 s₂ ≡ returns s₂.high_mem s₃
        → alloc 256 1 s₃ ≡ returns s₃.high_mem s₄
        → c.interrupt < 18
        → alloc_rings ports code netdev priv hw c w
          ≡ probed (
              finish_probe ports code netdev priv hw
                (record c {
                  rx_buffers = p;
                  tx_buffers = s₁.high_mem;
                  rdes = s₂.high_mem;
                  tdes = s₃.high_mem;
                })
                (with_store w s₄))
  unfolding alloc_rings
  alloc_rings-four s₁ s₂ s₃ s₄ p p₁ p₂ p₃ e₁ e₂ e₃ e₄ line =
      let in_table : ltb c.interrupt 18 ≡ true = ground arith in
      with_block-found 102400 w.devices.store.high_mem w.devices.store s₁ _ _ p e₁
      ∙ with_block-found 25600 s₁.high_mem _ s₂ _ _ p₁ e₂
      ∙ with_block-found 1024 s₂.high_mem s₂ s₃ _ _ p₂ e₃
      ∙ with_block-found 256 s₃.high_mem s₃ s₄ _ _ p₃ e₄
      ∙ rw in_table refl

  finish-laid_out :
      (s : Store) (p tx rdes tdes : ℕ)
      → tx ≡ p + 102400
      → rdes ≡ p + 128000
      → tdes ≡ p + 129024
      → finish_probe ports code netdev priv hw
          (record c { rx_buffers = p; tx_buffers = tx; rdes = rdes; tdes = tdes })
          (with_store w s)
        ≡ finish_probe ports code netdev priv hw (laid_out c p) (with_store w s)
  finish-laid_out s p tx rdes tdes t r d =
      let done : ℕ → ℕ → ℕ → World ports = λ x y z.
        finish_probe ports code netdev priv hw
          (record c { rx_buffers = p; tx_buffers = x; rdes = y; tdes = z }) (with_store w s) in
      ap (λ x. done x rdes tdes) t
      ∙ ap (λ x. done (p + 102400) x tdes) r
      ∙ ap (λ x. done (p + 102400) (p + 128000) x) d

  -- With room for all of them, they lie one behind the other.
  pub alloc_rings-laid_out :
      IsBump limit w.devices.store
      → IsBytes w.devices.store.bytes
      → w.devices.store.high_mem + rings_size < limit
      → c.interrupt < 18
      → (s : Store) × (alloc_rings ports code netdev priv hw c w
          ≡ probed (
              finish_probe ports code netdev priv hw
                (laid_out c w.devices.store.high_mem)
                (with_store w s)))
        × (s.high_mem ≡ w.devices.store.high_mem + rings_size)
        × IsBump limit s
        × IsBytes s.bytes
  alloc_rings-laid_out v b room line =
      let s = w.devices.store in
      let p = s.high_mem in
      let (s₁, e₁, n₁, v₁, b₁, k₁) = got limit 102400 s v b (omega arith) (omega arith) refl in
      let cleared : Store = record { high_mem = s₁.high_mem; bytes = memset s₁.bytes p 0 102400 } in
      let vc =
        IsBump-kept limit s₁ cleared refl
          (λ x ge. memset-outside s₁.bytes p 0 102400 x (omega arith)) v₁ in
      let bc = memset-IsBytes s₁.bytes p 0 102400 b₁ in
      let (s₂, e₂, n₂, v₂, b₂, k₂) =
        got limit 25600 cleared vc bc (omega arith) (omega arith) refl in
      let (s₃, e₃, n₃, v₃, b₃, k₃) = got limit 1024 s₂ v₂ b₂ (omega arith) (omega arith) refl in
      let (s₄, e₄, n₄, v₄, b₄, k₄) = got limit 256 s₃ v₃ b₃ (omega arith) (omega arith) refl in
      (
        s₄,
        alloc_rings-four s₁ s₂ s₃ s₄ v.start v₁.start v₂.start v₃.start e₁ e₂ e₃ e₄ line
            ∙ ap probed (
                finish-laid_out s₄ p s₁.high_mem s₂.high_mem s₃.high_mem n₁ (omega arith)
                  (omega arith)),
        omega arith,
        v₄,
        b₄,
      )
