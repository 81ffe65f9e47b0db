-- ===== src/Keyboard/Fifo.antt =====
-- What the key ring promises: a first-in first-out queue of at most 128 keys that drops what does
-- not fit, and answers 0 when it is empty.
use frog_os.Base.{ℕ, List, [], ◌∷◌, ◌++◌, length, ◌==◌, if◌then◌else◌}

abbrev pub Fifo : Type 0
Fifo = List ℕ

unfoldable pub enqueue : Fifo → ℕ → Fifo
enqueue q c = if length q == 128 then q else q ++ c ∷ []

unfoldable pub dequeue : Fifo → ℕ × Fifo
dequeue [] = (0, [])
dequeue (c ∷ q) = (c, q)

-- The calls on the ring: the interrupt's `kbd_enqueue` and the main loop's `kbd_dequeue`.
pub data Op : Type 0 where
  put : ℕ → Op
  get : Op

unfoldable pub run : Fifo → List Op → List ℕ × Fifo
run q [] = ([], q)
run q (put c ∷ ops) = run (enqueue q c) ops
run q (get ∷ ops) = let (c, q') = dequeue q in let (cs, q'') = run q' ops in (c ∷ cs, q'')
