-- ===== src/Timer/Sleep.antt =====
-- When `usleep` returns.
use frog_os.Base.{ℕ, ◌+◌, ◌-◌, ◌*◌, ◌^◌, ◌≤◌, ◌<◌, ◌≡◌, refl, arith, u64}
use frog_os.Base.{List, [], ◌∷◌, ◌++◌, some, true, false}
use frog_os.Timer.{is_positive, remaining, usleep_from, usleep}

-- Readings from `o` up to `c` that never fall, of which a tick counts as ten microseconds and none is
-- `u` microseconds behind `s`.
abbrev pub AreEarly : ℕ → ℕ → ℕ → ℕ → List ℕ → Type 0
AreEarly s u c o [] = o ≤ c
AreEarly s u c o (x ∷ xs) = (o ≤ x) × (10 * x < 10 * s + u) × AreEarly s u c x xs

is_positive_lem : (n : ℕ) → 0 < n → n < 2 ^ 63 → is_positive n ≡ true
unfolding is_positive
is_positive_lem n lo hi = ground arith

remaining_early :
    (r x o : ℕ) → o ≤ x → 10 * x < 10 * o + r → r < 2 ^ 32 → remaining r x o ≡ r + 10 * o - 10 * x
unfolding remaining
remaining_early r x o up before small =
    let step : u64 (x + 2 ^ 64 - o) ≡ x - o = omega arith in
    let whole : u64 (u64 (x + 2 ^ 64 - o) * 10) ≡ 10 * x - 10 * o = rw step (omega arith) in
    rw whole (omega arith)

remaining_due :
    (r x o : ℕ)
    → o ≤ x
    → r + 10 * o ≤ 10 * x
    → x ≤ o + 2 ^ 59
    → is_positive (remaining r x o) ≡ false
unfolding remaining is_positive
remaining_due r x o up due near =
    let step : u64 (x + 2 ^ 64 - o) ≡ x - o = omega arith in
    let whole : u64 (u64 (x + 2 ^ 64 - o) * 10) ≡ 10 * x - 10 * o = rw step (omega arith) in
    rw whole (ground arith)

usleep_from_done :
    (readings : List ℕ) (r o : ℕ) → is_positive r ≡ false → usleep_from readings r o ≡ some readings
unfolding usleep_from
usleep_from_done [] r o e = rw e refl
usleep_from_done (c ∷ cs) r o e = rw e refl

usleep_from-AreEarly :
    (s u c o r : ℕ) (pre post : List ℕ)
    → s ≤ o
    → 0 < r
    → r + 10 * o ≡ 10 * s + u
    → u < 2 ^ 32
    → c ≤ s + 2 ^ 59
    → AreEarly s u c o pre
    → 10 * s + u ≤ 10 * c
    → usleep_from (pre ++ c ∷ post) r o ≡ some post
unfolding usleep_from
usleep_from-AreEarly s u c o r [] post le pos e hu hc early due =
    let on = is_positive_lem r pos (omega arith) in
    rw on (
      usleep_from_done post (remaining r c o) c
        (remaining_due r c o early (omega arith) (omega arith)))
usleep_from-AreEarly s u c o r (x ∷ pre) post le pos e hu hc (up, before, early) due =
    let on = is_positive_lem r pos (omega arith) in
    rw (on, remaining_early r x o up (omega arith) (omega arith))
      (usleep_from-AreEarly s u c x (r + 10 * o - 10 * x) pre post (omega arith) (omega arith)
        (omega arith) hu hc early due)

-- With a counter that never falls and rises by at most 2 ^ 59, `usleep` of a 32-bit number above 0
-- waits through the readings that come too early, and returns at the first one that is at least its
-- microseconds, at ten a tick, behind the start.
pub usleep-AreEarly :
    (s u c : ℕ) (pre post : List ℕ)
    → 0 < u
    → u < 2 ^ 32
    → c ≤ s + 2 ^ 59
    → AreEarly s u c s pre
    → 10 * s + u ≤ 10 * c
    → usleep (pre ++ c ∷ post) u s ≡ some post
unfolding usleep
usleep-AreEarly s u c pre post pos hu hc early due =
    usleep_from-AreEarly s u c s u pre post (omega arith) pos (omega arith) hu hc early due
