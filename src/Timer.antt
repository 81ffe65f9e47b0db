-- ===== src/Timer.antt =====
-- pit.c and lib/sleep.c: the timer's count of its interrupts, and waiting for it.
pub mod Sleep
mod Tests
use frog_os.Base.{ℕ, ◌+◌, ◌-◌, ◌*◌, ◌^◌, u64, ltb, ◌&&◌, if◌then◌else◌, List, [], ◌∷◌, Bool}
use frog_os.Base.{Option, none, some}

-- `++pit_counter`.
unfoldable pub pit_handler : ℕ → ℕ
pit_handler pit_counter = u64 (pit_counter + 1)

-- A `long long` above 0, as 64 bits.
unfoldable pub is_positive : ℕ → Bool
is_positive n = ltb 0 n && ltb n (2 ^ 63)

-- `rem-=(counter-oldcounter)*10`.
unfoldable pub remaining : ℕ → ℕ → ℕ → ℕ
remaining rem counter oldcounter =
    u64 (rem + 2 ^ 64 - u64 (u64 (counter + 2 ^ 64 - oldcounter) * 10))

-- The loop, given what the counter reads after each `hlt`; it returns the readings that are left, and
-- `none` while it waits for one more.
unfoldable pub usleep_from : List ℕ → ℕ → ℕ → Option (List ℕ)
unfolding is_positive remaining
usleep_from [] rem oldcounter = if is_positive rem then none else some []
usleep_from (c ∷ cs) rem oldcounter =
    let rest = usleep_from cs (remaining rem c oldcounter) c in
    if is_positive rem then rest else some (c ∷ cs)

-- `useconds` has 32 bits.
unfoldable pub usleep : List ℕ → ℕ → ℕ → Option (List ℕ)
unfolding usleep_from
usleep readings useconds pit_counter = usleep_from readings useconds pit_counter
