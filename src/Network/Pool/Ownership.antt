-- ===== src/Network/Pool/Ownership.antt =====
-- Who holds the buffers: what `net_alloc` and `net_free` give out and take back.
use frog_os.Base.{ℕ, ◌+◌, ◌^◌, ◌≤◌, ◌<◌, ◌≡◌, ◌⊎◌, refl, ◌∙◌, sym, arith}
use frog_os.Base.{inl, inr, List, [], ◌∷◌, ◌++◌, true, false, ◌==◌}
use mathlib.Core.Path.{subst}
use native.Mathlib.Decide.{dec_lt}
use frog_os.Memory.{Mem, load32, store32, memset}
use frog_os.Memory.Laws.{store32-outside, load32-store32_self, memset-inside, memset-outside}
use frog_os.Alloc.{Store, alloc, returns}
use frog_os.Alloc.Bump.{IsBump, IsBump-kept, alloc_bump}
use frog_os.Network.Pool.{Net, Buffer, buffer, take_buffer, fill_pool, net_alloc, net_free}
use frog_os.Network.Pool.Chain.{Pool, IsClear, SameOutside, blocks, link-Pool}
use frog_os.Network.Pool.Chain.{link-outside, Pool-outside}
use frog_os.Network.Pool.Layout.{
  Layout, Layout-free, Layout-in, Layout-out, Layout-blocks, AllApart-suffix,
}

-- The pool holds the buffers `free`, which are clear behind their links; they and the buffers
-- `held`, which were given out, do not overlap and lie in front of the allocator's one free block.
pub record IsNet (limit : ℕ) (n : Net) (held free : List ℕ) : Type 0 where
  pub pool : Pool n.store.bytes n.buffers free
  pub bump : IsBump limit n.store
  pub layout : Layout n.store.high_mem (held ++ free)

-- The writes of `net_free`.
module _ (m : Mem) (b next : ℕ) where
  freed : Mem
  freed = store32 (memset m b 0 2000) b next

  freed-outside : SameOutside b m freed
  unfolding freed
  freed-outside x out =
      store32-outside (memset m b 0 2000) b next x (omega arith)
      ∙ memset-outside m b 0 2000 x (omega arith)

  freed-IsClear : IsClear freed b
  unfolding freed
  freed-IsClear i = elim (dec_lt i 4) [
    | yes low ↦ inr (inl low)
    | no low ↦ elim (dec_lt i 2000) [
      | no far ↦ inr (inr (omega arith))
      | yes near ↦ inl (
          store32-outside (memset m b 0 2000) b next (b + i) (inr (omega arith))
          ∙ memset-inside m b 0 2000 (b + i) (omega arith) (omega arith))
    ]
  ]

-- The first free buffer is the null pointer or lies in front of the allocator's free block.
Pool-lt : (h p : ℕ) (m : Mem) (xs held : List ℕ) → Pool m p xs → Layout h (held ++ xs) → p ≤ h
Pool-lt h p m [] [] e l = omega arith
Pool-lt h p m (a ∷ xs) [] (e, _, _, _, _) (pos, le, _, _) = omega arith
Pool-lt h p m xs (c ∷ held) e (pos, le, o, l) = Pool-lt h p m xs held e l

-- From a pool in order, `net_free` of any held buffer clears it behind its link and puts it in front
-- of the free ones; the pool is in order again, without that buffer held.
pub net_free-IsNet :
    (limit b : ℕ) (n : Net) (pre post free : List ℕ)
    → IsNet limit n (pre ++ b ∷ post) free
    → IsNet limit (net_free b n) (pre ++ post) (b ∷ free)
unfolding net_free freed
net_free-IsNet limit b n pre post free v =
    let h = n.store.high_mem in
    let m = n.store.bytes in
    let front = Layout-free h b pre post free v.layout in
    let (pos, le, apart, _) = front in
    let o = AllApart-suffix b (pre ++ post) free apart in
    let word = Pool-lt h n.buffers m free (pre ++ b ∷ post) v.pool v.layout in
    let next : load32 (freed m b n.buffers) b ≡ n.buffers =
      load32-store32_self (memset m b 0 2000) b n.buffers (omega (arith, v.bump.below)) in
    record {
      pool = (
        refl,
        pos,
        o,
        freed-IsClear m b n.buffers,
        subst (λ p. Pool (freed m b n.buffers) p free) (sym next)
            (Pool-outside b n.buffers free m (freed m b n.buffers) o (freed-outside m b n.buffers)
              v.pool),
      );
      bump =
          IsBump-kept limit n.store _ refl
            (λ x hi. freed-outside m b n.buffers x (inr (omega arith))) v.bump;
      layout = Layout-in h b (pre ++ post) free front;
    }

-- What `net_alloc` comes to.
abbrev pub Allocated : ℕ → Net → List ℕ → List ℕ → Buffer → Type 0
Allocated limit n held free o =
    (n' : Net) × (((o ≡ buffer 0 n')
        × (free ≡ [])
        × (limit ≤ n.store.high_mem + 64000)
        × IsNet limit n' held free)
      ⊎ ((a : ℕ) × (free' : List ℕ) × (o ≡ buffer a n')
          × IsNet limit n' (a ∷ held) free'
          × IsClear n'.store.bytes a))

pub fill_pool-Pool :
    (at : ℕ) (s : Store)
    → 0 < at
    → at + 64000 ≤ 2 ^ 32
    → let m = (fill_pool at s).store.bytes in
      IsClear m at × Pool m (load32 m at) (blocks 31 (at + 2000))
unfolding fill_pool blocks
fill_pool-Pool at s pos h =
    let (_, _, _, clear, rest) =
      link-Pool 31 at (memset s.bytes at 0 64000) pos (omega arith)
        (λ x lo hi. memset-inside s.bytes at 0 64000 x lo (omega arith)) in
    (clear, rest)

fill_pool-outside :
    (at x : ℕ) (s : Store) → at + 64000 ≤ x → (fill_pool at s).store.bytes x ≡ s.bytes x
unfolding fill_pool
fill_pool-outside at x s h =
    link-outside 31 at x (memset s.bytes at 0 64000) (inr (omega arith))
    ∙ memset-outside s.bytes at 0 64000 x (inr (omega arith))

-- Two ways through `net_alloc`.
pub net_alloc-full :
    (n : Net)
    → n.buffers ≡ 0
    → alloc 64000 1 n.store ≡ returns 0 n.store
    → net_alloc n ≡ buffer 0 (record { buffers = 0; store = n.store })
unfolding net_alloc
net_alloc-full n nil e = let on : (n.buffers == 0) ≡ true = ground arith in rw (on, e)

pub net_alloc-fill :
    (n : Net) (at : ℕ) (s : Store)
    → n.buffers ≡ 0
    → 0 < at
    → alloc 64000 1 n.store ≡ returns at s
    → net_alloc n ≡ take_buffer (fill_pool at s)
unfolding net_alloc
net_alloc-fill n at s nil pos e =
    let on : (n.buffers == 0) ≡ true = ground arith in
    let got : (at == 0) ≡ false = ground arith in rw (on, e, got)

-- From a pool in order, `net_alloc` ends. It returns 0 only when no buffer is free and the allocator
-- has no room for 64000 bytes; if not, it returns a buffer that is clear behind its link and that
-- overlaps no buffer, held or free. The pool is in order again, with that buffer held.
pub net_alloc-IsNet :
    (limit : ℕ) (n : Net) (held free : List ℕ)
    → IsNet limit n held free
    → Allocated limit n held free (net_alloc n)
unfolding net_alloc take_buffer fill_pool blocks
net_alloc-IsNet limit n held [] v =
    elim (alloc_bump limit n.store v.bump 64000 0 (omega arith) (omega arith)) [
      | inr (full, e) ↦
          let n' : Net = record { buffers = 0; store = n.store } in
          (
            n',
            inl (
              net_alloc-full n v.pool e,
              refl,
              omega arith,
              record { pool = refl; bump = v.bump; layout = v.layout },
            ),
          )
      | inl (room, (s, e, next, b, frame)) ↦
          let at = n.store.high_mem in
          let m = fill_pool at s in
          let (clear, rest) = fill_pool-Pool at s v.bump.start (omega (arith, v.bump.limit_in)) in
          (
            record { buffers = load32 m.store.bytes at; store = m.store },
            inr (
              at,
              blocks 31 (at + 2000),
              net_alloc-fill n at s v.pool v.bump.start e,
              record {
                pool = rest;
                bump =
                    IsBump-kept limit s m.store refl
                      (λ x hi. fill_pool-outside at x s (omega arith)) b;
                layout = Layout-out s.high_mem at held (blocks 31 (at + 2000)) (
                    Layout-blocks at s.high_mem 32 at held v.bump.start (omega arith) (omega arith)
                      v.layout);
              },
              clear,
            ),
          )
    ]
net_alloc-IsNet limit n held (a ∷ xs) v =
    let (e, pos, o, clear, rest) = v.pool in
    let on : (n.buffers == 0) ≡ false = ground arith in
    (
      record { buffers = load32 n.store.bytes a; store = n.store },
      inr (
        a,
        xs,
        rw (on, e),
        record {
          pool = rest;
          bump = v.bump;
          layout = Layout-out n.store.high_mem a held xs v.layout;
        },
        clear,
      ),
    )
