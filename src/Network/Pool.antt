-- ===== src/Network/Pool.antt =====
-- net.c: the pool of 32 frame buffers of 2000 bytes, a list whose links lie in the buffers.
pub mod Chain
pub mod Layout
pub mod Ownership
pub mod Area
use frog_os.Base.{ℕ, zero, suc, ◌+◌, ◌*◌, u32, ◌==◌, if◌then◌else◌}
use frog_os.Memory.{Mem, load32, store32, memset}
use frog_os.Alloc.{Store, alloc, returns, out_of_fuel}

-- The variable `buffers`, and the allocator's state with the memory.
pub record Net : Type 0 where
  pub buffers : ℕ
  pub store : Store

-- `net_alloc` returns a pointer, 0 for none; `stuck` is a walk of `alloc` that has not ended.
pub data Buffer : Type 0 where
  buffer : ℕ → Net → Buffer
  stuck : Buffer

-- The loop that links each buffer to the next one, from the address `at` on.
unfoldable pub link : ℕ → ℕ → Mem → Mem
link zero at m = m
link (suc n) at m = link n (at + 2000) (store32 m at (u32 (at + 2000)))

-- The last three lines of `net_alloc`.
unfoldable pub take_buffer : Net → Buffer
take_buffer n =
    buffer n.buffers (record { buffers = load32 n.store.bytes n.buffers; store = n.store })

-- The pool that `net_alloc` makes of the memory at `at`.
unfoldable pub fill_pool : ℕ → Store → Net
unfolding link
fill_pool at s = record {
  buffers = at;
  store = record { high_mem = s.high_mem; bytes = link 31 at (memset s.bytes at 0 (32 * 2000)) };
}

unfoldable pub net_alloc : Net → Buffer
unfolding take_buffer
net_alloc n =
    if n.buffers == 0
    then elim (alloc (32 * 2000) 1 n.store) [
      | out_of_fuel ↦ stuck
      | returns at s ↦
          if at == 0
          then buffer 0 (record { buffers = 0; store = s })
          else take_buffer (fill_pool at s)
    ]
    else take_buffer n

unfoldable pub net_free : ℕ → Net → Net
net_free buff n = record {
  buffers = buff;
  store = record {
    high_mem = n.store.high_mem;
    bytes = store32 (memset n.store.bytes buff 0 2000) buff n.buffers;
  };
}
