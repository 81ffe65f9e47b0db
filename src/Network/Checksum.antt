-- ===== src/Network/Checksum.antt =====
-- net.c: `htons` and `htonl`, and ipv4.c: `ip_cksum`.
pub mod Laws
use frog_os.Base.{ℕ, zero, suc, ◌+◌, ◌-◌, ◌*◌, ◌/◌, ◌%◌, bit_and, u32, not32, leb, ◌==◌, ◌>>>◌}
use frog_os.Base.{if◌then◌else◌, Option, none, some}
use frog_os.Memory.{Mem, load16}

-- `xchg %al,%ah` and `bswap`.
unfoldable pub htons : ℕ → ℕ
htons hs = hs % 256 * 256 + hs / 256 % 256

unfoldable pub htonl : ℕ → ℕ
htonl hl =
    hl % 256 * 256 * 256 * 256
    + hl / 256 % 256 * 256 * 256
    + hl / 256 / 256 % 256 * 256
    + hl / 256 / 256 / 256 % 256

-- The loop over the words, and the odd byte at the end.
unfoldable pub sum_words : ℕ → Mem → ℕ → ℕ → ℕ
sum_words sum m buff zero = sum
sum_words sum m buff (suc zero) = u32 (sum + m buff)
sum_words sum m buff (suc (suc len)) = sum_words (u32 (sum + load16 m buff)) m (buff + 2) len

-- The carries come back in at the bottom until none is left.
unfoldable pub fold_carries : ℕ → ℕ → Option ℕ
fold_carries zero sum = none
fold_carries (suc fuel) sum =
    let rest = fold_carries fuel (u32 (bit_and sum 0xffff + (sum >>> 16))) in
    if (sum >>> 16) == 0 then some sum else rest

unfoldable pub ip_cksum : ℕ → Mem → ℕ → ℕ → Option ℕ
ip_cksum prev m buff len = elim (fold_carries 3 (sum_words prev m buff len)) [
  | none ↦ none
  | some sum ↦ some (bit_and (not32 sum) 0xffff)
]
