-- ===== src/Network/Pool/Layout.antt =====
-- Buffers, held and free, that lie apart in front of the allocator's free block.
use frog_os.Base.{ℕ, zero, suc, ◌+◌, ◌*◌, ◌≤◌, ◌<◌, arith}
use frog_os.Base.{List, [], ◌∷◌, ◌++◌}
use mathlib.Core.List.{append_assoc}
use mathlib.Core.Path.{subst}
use frog_os.Base.{sym}
use frog_os.Network.Pool.Chain.{Apart, AllApart, blocks, blocks-AllApart}

abbrev pub Layout : ℕ → List ℕ → Type 0
Layout h [] = Unit
Layout h (a ∷ xs) = (0 < a) × (a + 2000 ≤ h) × AllApart a xs × Layout h xs

AllApart-out :
    (c b : ℕ) (xs ys : List ℕ) → AllApart c (xs ++ b ∷ ys) → Apart c b × AllApart c (xs ++ ys)
AllApart-out c b [] ys o = o
AllApart-out c b (x ∷ xs) ys (o, os) =
    let (here, rest) = AllApart-out c b xs ys os in (here, (o, rest))

AllApart-in :
    (c b : ℕ) (xs ys : List ℕ) → Apart c b → AllApart c (xs ++ ys) → AllApart c (xs ++ b ∷ ys)
AllApart-in c b [] ys o os = (o, os)
AllApart-in c b (x ∷ xs) ys o (o', os) = (o', AllApart-in c b xs ys o os)

pub AllApart-suffix : (c : ℕ) (xs ys : List ℕ) → AllApart c (xs ++ ys) → AllApart c ys
AllApart-suffix c [] ys o = o
AllApart-suffix c (x ∷ xs) ys (o, os) = AllApart-suffix c xs ys os

-- A buffer moves to the front and back.
pub Layout-out : (h b : ℕ) (xs ys : List ℕ) → Layout h (xs ++ b ∷ ys) → Layout h (b ∷ (xs ++ ys))
Layout-out h b [] ys l = l
Layout-out h b (c ∷ xs) ys (pos, le, o, l) =
    let (cb, os) = AllApart-out c b xs ys o in
    let (pos', le', o', l') = Layout-out h b xs ys l in
    (pos', le', (omega arith, o'), (pos, le, os, l'))

pub Layout-in : (h b : ℕ) (xs ys : List ℕ) → Layout h (b ∷ (xs ++ ys)) → Layout h (xs ++ b ∷ ys)
Layout-in h b [] ys l = l
Layout-in h b (c ∷ xs) ys (pos', le', (bc, o'), (pos, le, os, l')) =
    (pos, le, AllApart-in c b xs ys (omega arith) os, Layout-in h b xs ys (pos', le', o', l'))

-- A held buffer becomes the first free one.
pub Layout-free :
    (h b : ℕ) (pre post free : List ℕ)
    → Layout h ((pre ++ b ∷ post) ++ free)
    → Layout h (b ∷ ((pre ++ post) ++ free))
Layout-free h b pre post free l =
    subst (λ xs. Layout h (b ∷ xs)) (sym (append_assoc pre post free))
      (Layout-out h b pre (post ++ free) (subst (Layout h) (append_assoc pre (b ∷ post) free) l))

blocks-Layout : (h n at : ℕ) → 0 < at → at + 2000 * n ≤ h → Layout h (blocks n at)
unfolding blocks
blocks-Layout h zero at pos le = tt
blocks-Layout h (suc n) at pos le = (
  pos,
  omega arith,
  blocks-AllApart n at (at + 2000) (omega arith),
  blocks-Layout h n (at + 2000) (omega arith) (omega arith),
)

AllApart-blocks :
    (c n at : ℕ) (xs : List ℕ)
    → c + 2000 ≤ at
    → AllApart c (xs ++ [])
    → AllApart c (xs ++ blocks n at)
AllApart-blocks c n at [] h o = blocks-AllApart n c at h
AllApart-blocks c n at (x ∷ xs) h (o, os) = (o, AllApart-blocks c n at xs h os)

-- New buffers behind the old ones.
pub Layout-blocks :
    (h h' n at : ℕ) (xs : List ℕ)
    → 0 < at
    → h ≤ at
    → at + 2000 * n ≤ h'
    → Layout h (xs ++ [])
    → Layout h' (xs ++ blocks n at)
Layout-blocks h h' n at [] pos le le' l = blocks-Layout h' n at pos le'
Layout-blocks h h' n at (c ∷ xs) pos le le' (p, b, o, l) = (
  p,
  omega arith,
  AllApart-blocks c n at xs (omega arith) o,
  Layout-blocks h h' n at xs pos le le' l,
)
