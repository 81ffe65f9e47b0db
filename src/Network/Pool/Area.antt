-- ===== src/Network/Pool/Area.antt =====
-- Memory beside the pool: what writing to a held buffer, or to an area that no buffer meets, leaves of
-- the pool, and what `net_alloc` and `net_free` leave of such an area.
use frog_os.Base.{
  ℕ, zero, suc, ◌+◌, ◌≤◌, ◌<◌, ◌≡◌, ◌⊎◌, refl, ◌∙◌, sym, arith, inl, inr, ◌==◌, false,
}
use frog_os.Base.{List, [], ◌∷◌, ◌++◌}
use native.Mathlib.Decide.{dec_lt}
use mathlib.Core.Path.{subst, ap₂}
use frog_os.Memory.{Mem, load32}
use frog_os.Memory.{memset}
use frog_os.Memory.Laws.{memset-outside}
use frog_os.Memory.Laws.{IsBytes, load32-same, memset-IsBytes, store32-IsBytes}
use frog_os.Alloc.Bump.{IsBump-kept, alloc_bump, alloc_bump-IsBytes}
use frog_os.Network.Pool.{
  Net, Buffer, buffer, stuck, link, take_buffer, fill_pool, net_alloc, net_free,
}
use frog_os.Network.Pool.Chain.{AllApart, Pool, IsClear, link-outside, blocks}
use frog_os.Network.Pool.Layout.{AllApart-suffix}
use frog_os.Network.Pool.Ownership.{IsNet, net_alloc-full}
use frog_os.Network.Pool.Ownership.{net_alloc-fill, fill_pool-Pool, net_alloc-IsNet}
use frog_os.Network.Pool.Ownership.{net_free-IsNet}
use frog_os.Network.Host.{with_bytes}

-- Buffers off the addresses from `lo` to `hi`.
abbrev pub AllBeside : ℕ → ℕ → List ℕ → Type 0
AllBeside lo hi [] = Unit
AllBeside lo hi (a ∷ xs) = ((a + 2000 ≤ lo) ⊎ (hi ≤ a)) × AllBeside lo hi xs

pub AllBeside-append :
    (lo hi : ℕ) (xs ys : List ℕ)
    → AllBeside lo hi xs
    → AllBeside lo hi ys
    → AllBeside lo hi (xs ++ ys)
AllBeside-append lo hi [] ys o p = p
AllBeside-append lo hi (x ∷ xs) ys (o, os) p = (o, AllBeside-append lo hi xs ys os p)

pub AllBeside-blocks : (lo hi n at : ℕ) → hi ≤ at → AllBeside lo hi (blocks n at)
unfolding blocks
AllBeside-blocks lo hi zero at le = tt
AllBeside-blocks lo hi (suc n) at le = (inr le, AllBeside-blocks lo hi n (at + 2000) (omega arith))

-- Memory that differs within an area only.
abbrev pub DiffersIn : ℕ → ℕ → Mem → Mem → Type 0
DiffersIn lo hi m m' = (x : ℕ) → (x < lo) ⊎ (hi ≤ x) → m' x ≡ m x

IsClear-beside :
    (lo hi a : ℕ) (m m' : Mem)
    → (a + 2000 ≤ lo) ⊎ (hi ≤ a)
    → DiffersIn lo hi m m'
    → IsClear m a
    → IsClear m' a
IsClear-beside lo hi a m m' off same clear i = elim (clear i) [
  | inr out ↦ inr out
  | inl e ↦ elim (dec_lt i 2000) [
    | no far ↦ inr (inr (omega arith))
    | yes near ↦ inl (same (a + i) (omega arith) ∙ e)
  ]
]

Pool-beside :
    (lo hi p : ℕ) (xs : List ℕ) (m m' : Mem)
    → AllBeside lo hi xs
    → DiffersIn lo hi m m'
    → Pool m p xs
    → Pool m' p xs
Pool-beside lo hi p [] m m' o same e = e
Pool-beside lo hi p (a ∷ xs) m m' (o, os) same (e, pos, apart, clear, rest) =
    let next = load32-same a m m' (λ x ge lt. same x (omega arith)) in
    (
      e,
      pos,
      apart,
      IsClear-beside lo hi a m m' o same clear,
      rw next (Pool-beside lo hi (load32 m a) xs m m' os same rest),
    )

-- A write to an area in front of the allocator's free block, that no free buffer meets.
pub IsNet-beside :
    (limit lo hi : ℕ) (n : Net) (m : Mem) (held free : List ℕ)
    → hi ≤ n.store.high_mem
    → AllBeside lo hi free
    → DiffersIn lo hi n.store.bytes m
    → IsNet limit n held free
    → IsNet limit (with_bytes n m) held free
IsNet-beside limit lo hi n m held free le off same v = record {
  pool = Pool-beside lo hi n.buffers free n.store.bytes m off same v.pool;
  bump = IsBump-kept limit n.store _ refl (λ x ge. same x (omega arith)) v.bump;
  layout = v.layout;
}

AllApart-AllBeside : (a : ℕ) (xs : List ℕ) → AllApart a xs → AllBeside a (a + 2000) xs
AllApart-AllBeside a [] o = tt
AllApart-AllBeside a (b ∷ xs) (o, os) = (omega arith, AllApart-AllBeside a xs os)

-- A write to the buffer that was given out last.
pub IsNet-held :
    (limit a : ℕ) (n : Net) (m : Mem) (held free : List ℕ)
    → DiffersIn a (a + 2000) n.store.bytes m
    → IsNet limit n (a ∷ held) free
    → IsNet limit (with_bytes n m) (a ∷ held) free
IsNet-held limit a n m held free same v =
    let (pos, le, apart, rest) = v.layout in
    IsNet-beside limit a (a + 2000) n m (a ∷ held) free le
      (AllApart-AllBeside a free (AllApart-suffix a held free apart)) same v

-- The pool that a chain in memory stands for.
Pool-unique : (m : Mem) (p : ℕ) (xs ys : List ℕ) → Pool m p xs → Pool m p ys → xs ≡ ys
Pool-unique m p [] [] e f = refl
Pool-unique m p [] (b ∷ ys) e (f, pos, _, _, _) = absurd (omega arith)
Pool-unique m p (a ∷ xs) [] (e, pos, _, _, _) f = absurd (omega arith)
Pool-unique m p (a ∷ xs) (b ∷ ys) (e, _, _, _, rest) (f, _, _, _, rest') =
    let same : a ≡ b = omega arith in
    ap₂ ◌∷◌ same
      (Pool-unique m (load32 m b) xs ys (subst (λ x. Pool m (load32 m x) xs) same rest) rest')

link-IsBytes : (n at : ℕ) (m : Mem) → IsBytes m → IsBytes (link n at m)
unfolding link
link-IsBytes zero at m b = b
link-IsBytes (suc n) at m b = link-IsBytes n (at + 2000) _ (store32-IsBytes m at _ b)

-- What `net_alloc` leaves of the memory in front of the free block, and what it makes of the pool.
abbrev Kept : ℕ → ℕ → Net → Buffer → Type 0
Kept lo hi n stuck = ⊥
Kept lo hi n (buffer a n') =
    ((x : ℕ) → x < n.store.high_mem → n'.store.bytes x ≡ n.store.bytes x)
    × IsBytes n'.store.bytes
    × (n.store.high_mem ≤ n'.store.high_mem)
    × (free : List ℕ) × Pool n'.store.bytes n'.buffers free
    × AllBeside lo hi free
    × ((a ≡ 0) ⊎ ((a + 2000 ≤ lo) ⊎ (hi ≤ a)))

net_alloc-take :
    (n : Net) (a : ℕ)
    → n.buffers ≡ a
    → 0 < a
    → net_alloc n ≡ buffer a (record { buffers = load32 n.store.bytes a; store = n.store })
unfolding net_alloc take_buffer
net_alloc-take n a e pos = let on : (n.buffers == 0) ≡ false = ground arith in rw (on, e) refl

net_alloc-Kept :
    (limit lo hi : ℕ) (n : Net) (held free : List ℕ)
    → IsNet limit n held free
    → IsBytes n.store.bytes
    → hi ≤ n.store.high_mem
    → AllBeside lo hi free
    → Kept lo hi n (net_alloc n)
unfolding take_buffer fill_pool
net_alloc-Kept limit lo hi n held [] v b le off =
    elim (alloc_bump limit n.store v.bump 64000 0 (omega arith) (omega arith)) [
      | inr (full, e) ↦
          subst (Kept lo hi n) (sym (net_alloc-full n v.pool e))
            ((λ x lt. refl), b, omega arith, [], refl, tt, inl refl)
      | inl (room, (s, e, next, bump, frame)) ↦
          let at = n.store.high_mem in
          let m = memset s.bytes at 0 64000 in
          let sb =
            alloc_bump-IsBytes limit n.store v.bump 64000 0 s (omega arith) (omega arith) room e
              b in
          let (clear, rest) = fill_pool-Pool at s v.bump.start (omega (arith, v.bump.limit_in)) in
          subst (Kept lo hi n) (sym (net_alloc-fill n at s v.pool v.bump.start e)) (
            (λ x lt.
                link-outside 31 at x m (inl lt)
                ∙ memset-outside s.bytes at 0 64000 x (inl lt)
                ∙ elim (frame x) [ inl same ↦ same | inr (ge, up) ↦ absurd (omega arith) ]),
            link-IsBytes 31 at m (memset-IsBytes s.bytes at 0 64000 sb),
            omega arith,
            blocks 31 (at + 2000),
            rest,
            AllBeside-blocks lo hi 31 (at + 2000) (omega arith),
            inr (inr le),
          )
    ]
net_alloc-Kept limit lo hi n held (a ∷ xs) v b le (o, os) =
    let (e, pos, apart, clear, rest) = v.pool in
    subst (Kept lo hi n) (sym (net_alloc-take n a e pos))
      ((λ x lt. refl), b, omega arith, xs, rest, os, inr o)

-- The pool beside an area that no buffer meets, with the allocator's free block behind it.
pub record IsNetBeside (limit lo hi : ℕ) (n : Net) (held free : List ℕ) : Type 0 where
  pub net : IsNet limit n held free
  pub off_held : AllBeside lo hi held
  pub off_free : AllBeside lo hi free
  pub below : hi ≤ n.store.high_mem
  pub bytes : IsBytes n.store.bytes

-- `net_alloc` leaves the memory in front of the free block alone, and its buffer is off the area.
pub net_alloc-IsNetBeside :
    (limit lo hi : ℕ) (n : Net) (held free : List ℕ)
    → IsNetBeside limit lo hi n held free
    → (n' : Net) × ((x : ℕ) → x < hi → n'.store.bytes x ≡ n.store.bytes x)
      × (((net_alloc n ≡ buffer 0 n') × IsNetBeside limit lo hi n' held free)
          ⊎ ((a : ℕ) × (free' : List ℕ) × (net_alloc n ≡ buffer a n')
              × (0 < a)
              × IsNetBeside limit lo hi n' (a ∷ held) free'
              × IsClear n'.store.bytes a))
net_alloc-IsNetBeside limit lo hi n held free v =
    let kept = net_alloc-Kept limit lo hi n held free v.net v.bytes v.below v.off_free in
    let (n', r) = net_alloc-IsNet limit n held free v.net in
    elim r [
      | inl (e, none_free, full, net) ↦
          let (same, b, up, fs, pool, off, a) = subst (Kept lo hi n) e kept in
          (
            n',
            (λ x lt. same x (omega (arith, v.below))),
            inl (
              e,
              record {
                net = net;
                off_held = v.off_held;
                off_free = v.off_free;
                below = omega (arith, v.below);
                bytes = b;
              },
            ),
          )
      | inr (a, free', e, net, clear) ↦
          let (same, b, up, fs, pool, off, at) = subst (Kept lo hi n) e kept in
          let (pos, le, apart, rest) = net.layout in
          let unique = Pool-unique n'.store.bytes n'.buffers fs free' pool net.pool in
          (
            n',
            (λ x lt. same x (omega (arith, v.below))),
            inr (
              a,
              free',
              e,
              pos,
              record {
                net = net;
                off_held = (omega arith, v.off_held);
                off_free = subst (AllBeside lo hi) unique off;
                below = omega (arith, v.below);
                bytes = b;
              },
              clear,
            ),
          )
    ]

-- Writes to the area, and to the buffer given out last.
pub area-IsNetBeside :
    (limit lo hi : ℕ) (n : Net) (m : Mem) (held free : List ℕ)
    → IsNetBeside limit lo hi n held free
    → IsBytes m
    → DiffersIn lo hi n.store.bytes m
    → IsNetBeside limit lo hi (with_bytes n m) held free
area-IsNetBeside limit lo hi n m held free v b same = record {
  net = IsNet-beside limit lo hi n m held free v.below v.off_free same v.net;
  off_held = v.off_held;
  off_free = v.off_free;
  below = v.below;
  bytes = b;
}

pub held-IsNetBeside :
    (limit lo hi a : ℕ) (n : Net) (m : Mem) (held free : List ℕ)
    → IsNetBeside limit lo hi n (a ∷ held) free
    → IsBytes m
    → DiffersIn a (a + 2000) n.store.bytes m
    → IsNetBeside limit lo hi (with_bytes n m) (a ∷ held) free
held-IsNetBeside limit lo hi a n m held free v b same = record {
  net = IsNet-held limit a n m held free same v.net;
  off_held = v.off_held;
  off_free = v.off_free;
  below = v.below;
  bytes = b;
}

-- Giving the buffer given out last back.
pub net_free-IsNetBeside :
    (limit lo hi a : ℕ) (n : Net) (held free : List ℕ)
    → IsNetBeside limit lo hi n (a ∷ held) free
    → IsNetBeside limit lo hi (net_free a n) held (a ∷ free)
unfolding net_free
net_free-IsNetBeside limit lo hi a n held free v =
    let (off, offs) = v.off_held in
    record {
      net = net_free-IsNet limit a n [] held free v.net;
      off_held = offs;
      off_free = (off, v.off_free);
      below = v.below;
      bytes = store32-IsBytes _ a _ (memset-IsBytes n.store.bytes a 0 2000 v.bytes);
    }
