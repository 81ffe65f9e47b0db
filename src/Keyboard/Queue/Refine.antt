-- ===== src/Keyboard/Queue/Refine.antt =====
-- The ring of keyboard.c holds and hands out what the queue `Fifo` does.
use mathlib.Core.Path.{ap₂}
use frog_os.Base.{ℕ, zero, suc, ◌+◌, ◌-◌, ◌%◌, ◌≤◌, ◌<◌, ◌≡◌, ◌≢◌, refl, ap, inl, inr}
use frog_os.Base.{List, [], ◌∷◌, ◌++◌, Bool, arith, length, get_or, set, length-set}
use frog_os.Base.{get_or-set_self, get_or-set_ne, ◌==◌, Bool-cases}
use frog_os.Keyboard.Fifo
use frog_os.Keyboard.Fifo.{Fifo, Op, put, get}
use frog_os.Keyboard.Queue.{Ring, enqueue, dequeue}

-- The buffer has its 128 entries, and the counters fit together.
pub record IsValid (r : Ring) : Type 0 where
  pub full_length : length r.buffer ≡ 128
  pub head_in : r.head < 128
  pub size_in : r.size ≤ 128
  pub tail_at : r.tail ≡ (r.head + r.size) % 128

-- The `n` entries from index `h` on, going round at 128.
abbrev window : List ℕ → ℕ → ℕ → Fifo
window buf h zero = []
window buf h (suc n) = get_or buf h 0 ∷ window buf ((h + 1) % 128) n

abbrev pub contents : Ring → Fifo
contents r = window r.buffer r.head r.size

length-window : (buf : List ℕ) (h n : ℕ) → length (window buf h n) ≡ n
length-window buf h zero = refl
length-window buf h (suc n) = ap suc (length-window buf ((h + 1) % 128) n)

pub length-contents : (r : Ring) → length (contents r) ≡ r.size
length-contents r = length-window r.buffer r.head r.size

-- The entry behind a window extends it.
window_snoc :
    (buf : List ℕ) (n h t : ℕ)
    → h < 128
    → t ≡ (h + n) % 128
    → window buf h (suc n) ≡ window buf h n ++ get_or buf t 0 ∷ []
window_snoc buf zero h t hh e = let at : h ≡ t = omega arith in ap (λ i. get_or buf i 0 ∷ []) at
window_snoc buf (suc n) h t hh e =
    ap (λ q. get_or buf h 0 ∷ q) (window_snoc buf n ((h + 1) % 128) t (omega arith) (omega arith))

-- A write behind a window does not change it.
window-set :
    (buf : List ℕ) (c n h t : ℕ)
    → h < 128
    → n < 128
    → t ≡ (h + n) % 128
    → window (set buf t c) h n ≡ window buf h n
window-set buf c zero h t hh hn e = refl
window-set buf c (suc n) h t hh hn e =
    ap₂ ◌∷◌ (get_or-set_ne buf t h c 0 (omega arith))
      (window-set buf c n ((h + 1) % 128) t (omega arith) (omega arith) (omega arith))

window_pop :
    (buf : List ℕ) (h n : ℕ)
    → n ≢ 0
    → window buf h n ≡ get_or buf h 0 ∷ window buf ((h + 1) % 128) (n - 1)
window_pop buf h zero ne = absurd (ne refl)
window_pop buf h (suc n) ne = let e : suc n - 1 ≡ n = omega arith in rw e

-- `kbd_enqueue` keeps the invariant.
pub enqueue-IsValid : (r : Ring) (c : ℕ) → IsValid r → IsValid (enqueue r c)
unfolding enqueue
enqueue-IsValid r c v = ground (arith, length-set r.buffer r.tail c)

-- `kbd_dequeue` keeps the invariant.
pub dequeue-IsValid : (r : Ring) (flag : Bool) → IsValid r → IsValid (dequeue r flag).1
unfolding dequeue
dequeue-IsValid r flag v = ground arith

push_window :
    (buf : List ℕ) (c n h t : ℕ)
    → length buf ≡ 128
    → h < 128
    → n < 128
    → t ≡ (h + n) % 128
    → window (set buf t c) h (n + 1) ≡ window buf h n ++ c ∷ []
push_window buf c n h t len hh hn e =
    let one_more : n + 1 ≡ suc n = omega arith in
    rw (
      one_more,
      window_snoc (set buf t c) n h t hh e,
      window-set buf c n h t hh hn e,
      get_or-set_self buf t c 0 (omega arith),
    )

pub enqueue_refines :
    (r : Ring) (c : ℕ) → IsValid r → contents (enqueue r c) ≡ Fifo.enqueue (contents r) c
unfolding enqueue Fifo.enqueue
enqueue_refines r c v = elim (Bool-cases (r.size == 128)) [
  | inl full ↦ rw (length-contents r, full)
  | inr room ↦
      rw (length-contents r, room)
        (push_window r.buffer c r.size r.head r.tail v.full_length v.head_in (ground arith)
          v.tail_at)
]

pub dequeue_refines :
    (r : Ring) (flag : Bool)
    → IsValid r
    → let (c, r', flag') = dequeue r flag in (c, contents r') ≡ Fifo.dequeue (contents r)
unfolding dequeue Fifo.dequeue
dequeue_refines r flag v = ground (arith, window_pop r.buffer r.head r.size)

-- The calls on the ring, with the keys that `kbd_dequeue` returned, from a given interrupt flag.
pub run : Ring → Bool → List Op → List ℕ × Ring
run r flag [] = ([], r)
run r flag (put c ∷ ops) = run (enqueue r c) flag ops
run r flag (get ∷ ops) =
    let (c, r', flag') = dequeue r flag in let (cs, r'') = run r' flag' ops in (c ∷ cs, r'')

-- From a valid ring, any sequence of `kbd_enqueue` and `kbd_dequeue` calls returns the keys that
-- the queue of the ring's contents returns, and ends in a valid ring that holds that queue's rest.
pub run_refines :
    (ops : List Op) (r : Ring) (flag : Bool)
    → IsValid r
    → let (cs, r') = run r flag ops in ((cs, contents r') ≡ Fifo.run (contents r) ops) × IsValid r'
unfolding run Fifo.run
run_refines [] r flag v = (refl, v)
run_refines (put c ∷ ops) r flag v =
    let (e, w) = run_refines ops (enqueue r c) flag (enqueue-IsValid r c v) in
    (rw (← enqueue_refines r c v) e, w)
run_refines (get ∷ ops) r flag v =
    let (e, w) = run_refines ops (dequeue r flag).1 (dequeue r flag).2 (dequeue-IsValid r flag v) in
    (rw (← dequeue_refines r flag v, ← e) refl, w)
