-- ===== src/Keyboard/Queue.antt =====
-- keyboard.c: the ring `kbd_buffer` between the keyboard interrupt and the main loop. The counters
-- are C ints that stay within 0 and 128. The interrupt flag stands for `cli` and `sti`.
pub mod Refine
use frog_os.Base.{ℕ, ◌+◌, ◌-◌, List, Bool, true, set, get_or, ◌==◌, if◌then◌else◌}

abbrev pub kbd_queue_size : ℕ
kbd_queue_size = 128

pub record Ring : Type 0 where
  pub buffer : List ℕ
  pub size : ℕ
  pub head : ℕ
  pub tail : ℕ

unfoldable pub is_empty : Ring → Bool
is_empty r = r.size == 0

unfoldable pub enqueue : Ring → ℕ → Ring
enqueue r c =
    if r.size == kbd_queue_size
    then r
    else let tail = r.tail + 1 in
      record {
        buffer = set r.buffer r.tail c;
        size = r.size + 1;
        head = r.head;
        tail = if tail == kbd_queue_size then 0 else tail;
      }

-- The key, the ring and the interrupt flag. The read is in range under the ring's invariant.
unfoldable pub dequeue : Ring → Bool → ℕ × Ring × Bool
dequeue r flag =
    if r.size == 0
    then (0, r, flag)
    else let head = r.head + 1 in
      (
        get_or r.buffer r.head 0,
        record r { size = r.size - 1; head = if head == kbd_queue_size then 0 else head },
        true,
      )
