-- ===== src/Memory/Tests.antt =====
-- The memory's theorems at concrete inputs.
use frog_os.Base.{◌≡◌, ◌≢◌, ◌⊎◌}
use frog_os.Memory.{Mem, memcmp, store8}
use frog_os.Memory.Bytes.{read_bytes}
use frog_os.Memory.Compare.{memcmp-read_bytes}

-- Two runs that differ in their third byte.
abbrev bytes : Mem
bytes = store8 (λ x. 7) 0x2002 8

memcmp-read_bytes_example :
    ((memcmp bytes 0x1000 0x2000 4 ≡ 1) × (read_bytes bytes 0x1000 4 ≡ read_bytes bytes 0x2000 4))
    ⊎ ((memcmp bytes 0x1000 0x2000 4 ≡ 0) × (read_bytes bytes 0x1000 4 ≢ read_bytes bytes 0x2000 4))
memcmp-read_bytes_example = memcmp-read_bytes bytes 0x1000 0x2000 4
