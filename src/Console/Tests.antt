-- ===== src/Console/Tests.antt =====
-- The screen's theorems at concrete inputs.
use frog_os.Base.{ℕ, ◌≡◌, arith, List, [], ◌∷◌, ◌++◌, length, replicate, length-replicate}
use frog_os.Console.{Screen, putch, puts}
use frog_os.Console.Terminal.{put, put_all}
use frog_os.Console.Refine.{IsOnScreen, IsText, ShowsCursor, terminal}
use frog_os.Console.Refine.{putch_refines, puts_refines}

-- A full screen with the cursor in the last cell.
abbrev at_end : Screen
at_end = record { video = replicate 2000 46; csr_x = 79; csr_y = 24; ports = [] }

at_end-cells : length {A = ℕ} (replicate 2000 46) ≡ 2000
at_end-cells = length-replicate {A = ℕ} 2000 46

at_end-IsOnScreen : IsOnScreen at_end
at_end-IsOnScreen = record { cells = at_end-cells; column = omega arith; row = omega arith }

putch_refines_example :
    IsOnScreen (putch 65 at_end)
    × (terminal (putch 65 at_end) ≡ put 65 (terminal at_end))
    × ShowsCursor (putch 65 at_end)
putch_refines_example = putch_refines 65 at_end (omega arith) at_end-IsOnScreen

abbrev word : List ℕ
word = 70 ∷ 10 ∷ 9 ∷ 79 ∷ []

word-IsText : IsText word
word-IsText = omega arith

puts_refines_example :
    IsOnScreen (puts (word ++ 0 ∷ 88 ∷ []) at_end)
    × (terminal (puts (word ++ 0 ∷ 88 ∷ []) at_end) ≡ put_all word (terminal at_end))
puts_refines_example = puts_refines word (88 ∷ []) at_end word-IsText at_end-IsOnScreen
