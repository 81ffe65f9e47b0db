-- ===== src/Memory.antt =====
-- Byte-addressed memory, the accesses of the C code to it, and the copies and fills of
-- lib/memset.c and lib/memcpy.c, and the test of lib/memcmp.c. Accesses of 16 and 32 bits are little-endian, as on the x86.
pub mod Laws
pub mod Bytes
pub mod Frame
pub mod Compare
mod Tests
use frog_os.Base.{List, [], ◌∷◌, ℕ, zero, suc, ◌+◌, ◌*◌, ◌/◌, u8, ◌>>>◌, ◌==◌, if◌then◌else◌}

abbrev pub Mem : Type 0
Mem = ℕ → ℕ

unfoldable pub store8 : Mem → ℕ → ℕ → Mem
store8 m a v x = if x == a then u8 v else m x

unfoldable pub load16 : Mem → ℕ → ℕ
load16 m a = m a + 256 * m (a + 1)

unfoldable pub store16 : Mem → ℕ → ℕ → Mem
unfolding store8
store16 m a v = store8 (store8 m a v) (a + 1) (v >>> 8)

unfoldable pub load32 : Mem → ℕ → ℕ
unfolding load16
load32 m a = load16 m a + 65536 * load16 m (a + 2)

unfoldable pub store32 : Mem → ℕ → ℕ → Mem
unfolding store16
store32 m a v = store16 (store16 m a v) (a + 2) (v >>> 16)

-- `rep stosb`, upwards from the first byte.
unfoldable pub memset : Mem → ℕ → ℕ → ℕ → Mem
memset m s c zero = m
memset m s c (suc n) = memset (store8 m s c) (s + 1) c n

-- `rep movsb`: a byte that the copy has overwritten is read as overwritten.
unfoldable pub memcpy : Mem → ℕ → ℕ → ℕ → Mem
memcpy m dest src zero = m
memcpy m dest src (suc n) = memcpy (store8 m dest (m src)) (dest + 1) (src + 1) n

-- A copy from an array that is not in the memory.
unfoldable pub copy_in : Mem → ℕ → List ℕ → Mem
copy_in m a [] = m
copy_in m a (x ∷ xs) = copy_in (store8 m a x) (a + 1) xs

-- `repe cmpsb` behind a comparison that sets the flag, and `setz`: 1 for bytes that are the same.
unfoldable pub memcmp : Mem → ℕ → ℕ → ℕ → ℕ
memcmp m s1 s2 zero = 1
memcmp m s1 s2 (suc n) = let rest = memcmp m (s1 + 1) (s2 + 1) n in if m s1 == m s2 then rest else 0
