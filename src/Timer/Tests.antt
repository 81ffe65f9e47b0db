-- ===== src/Timer/Tests.antt =====
-- The timer's theorem at a concrete sleep.
use frog_os.Base.{◌≡◌, [], ◌∷◌, ◌++◌, some, arith}
use frog_os.Timer.{usleep}
use frog_os.Timer.Sleep.{usleep-AreEarly}

usleep-AreEarly_example : usleep ((7 ∷ 8 ∷ []) ++ 9 ∷ 10 ∷ []) 20 7 ≡ some (10 ∷ [])
usleep-AreEarly_example =
    usleep-AreEarly 7 20 9 (7 ∷ 8 ∷ []) (10 ∷ []) (omega arith) (omega arith) (omega arith)
      (omega arith) (omega arith)
