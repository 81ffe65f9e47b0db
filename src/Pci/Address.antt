-- ===== src/Pci/Address.antt =====
-- The layout of a configuration address.
use frog_os.Base.{ℕ, ◌+◌, ◌*◌, ◌/◌, ◌<◌, ◌≡◌, arith, bit_and, bit_or, bit_or_fields, ◌<<<◌}
use frog_os.Base.{bit_or_above, bit_and_clear}
use frog_os.Pci.{config_address}

pub config_address_lem :
    (bus slot func offset : ℕ)
    → bus < 256
    → slot < 32
    → func < 8
    → offset < 256
    → config_address bus slot func offset
      ≡ 0x80000000 + bus * 65536 + slot * 2048 + func * 256 + offset / 4 * 4
unfolding config_address
config_address_lem bus slot func offset hb hs hf ho =
    let low : bit_and offset 0xfc ≡ offset / 4 * 4 = bit_and_clear 2 6 offset (omega arith) in
    let two : bit_or (bus <<< 16) (slot <<< 11) ≡ (bus * 32 + slot) <<< 11 =
      omega (arith, bit_or_fields 16 bus (slot * 2048) (omega arith)) in
    let three : bit_or ((bus * 32 + slot) <<< 11) (func <<< 8)
        ≡ ((bus * 32 + slot) * 8 + func) <<< 8 =
      omega (arith, bit_or_fields 11 (bus * 32 + slot) (func * 256) (omega arith)) in
    let rest = ((bus * 32 + slot) * 8 + func) * 256 + offset / 4 * 4 in
    let four : bit_or (((bus * 32 + slot) * 8 + func) <<< 8) (offset / 4 * 4) ≡ rest =
      bit_or_fields 8 ((bus * 32 + slot) * 8 + func) (offset / 4 * 4) (omega arith) in
    let top : bit_or rest 0x80000000 ≡ 0x80000000 + rest = bit_or_above 31 1 rest (omega arith) in
    rw (two, three, low, four, top) (omega arith)
