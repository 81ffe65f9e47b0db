-- ===== src/Network/Icmp/Cksum.antt =====
-- The checksums that icmp.c stores among the bytes that they are of.
use frog_os.Base.{ℕ, zero, suc, ◌+◌, ◌*◌, ◌≤◌, ◌<◌, ◌≡◌, refl, arith, Option, some}
use frog_os.Memory.{Mem, load16, store16}
use frog_os.Memory.Laws.{IsBytes, store16-IsBytes, store16-outside}
use frog_os.Network.Checksum.{ip_cksum, sum_words}
use frog_os.Network.Checksum.Laws.{ip_cksum-ip_cksum}
use frog_os.Network.Icmp.{store_cksum}
use frog_os.Network.Icmp.Header.{Off}

sum_words-same :
    (m m' : Mem) (a n sum : ℕ)
    → ((x : ℕ) → a ≤ x → x < a + n → m' x ≡ m x)
    → sum_words sum m' a n ≡ sum_words sum m a n
unfolding sum_words load16
sum_words-same m m' a zero sum same = refl
sum_words-same m m' a (suc zero) sum same = rw (same a (omega arith) (omega arith)) refl
sum_words-same m m' a (suc (suc n)) sum same =
    rw (same a (omega arith) (omega arith), same (a + 1) (omega arith) (omega arith))
      (sum_words-same m m' (a + 2) n _ (λ x lo hi. same x (omega arith) (omega arith)))

pub ip_cksum-same :
    (m m' : Mem) (a n : ℕ)
    → ((x : ℕ) → a ≤ x → x < a + n → m' x ≡ m x)
    → ip_cksum 0 m' a n ≡ ip_cksum 0 m a n
unfolding ip_cksum
ip_cksum-same m m' a n same = rw (ip_cksum, sum_words-same m m' a n 0 same) refl

-- The memory with a checksum stored, at a word of the buffer that was 0.
abbrev pub Checked : Mem → ℕ → ℕ → ℕ → Option Mem → Type 0
Checked m buff len field o =
    (m' : Mem) × (o ≡ some m')
    × (ip_cksum 0 m' buff len ≡ some 0)
    × IsBytes m'
    × ((x : ℕ) → Off x field 2 → m' x ≡ m x)

pub store_cksum-Checked :
    (m : Mem) (buff len i field : ℕ)
    → IsBytes m
    → len ≤ 65536
    → 2 * i + 2 ≤ len
    → buff + 2 * i ≡ field
    → load16 m field ≡ 0
    → Checked m buff len field (store_cksum buff len field m)
unfolding store_cksum
store_cksum-Checked m buff len i field b small inside at nil =
    let (c, e, z) = ip_cksum-ip_cksum m buff len i b small inside (rw at nil) in
    (
      store16 m field c,
      rw (store_cksum, e) refl,
      rw at at z,
      store16-IsBytes m field c b,
      λ x out. store16-outside m field c x out,
    )
