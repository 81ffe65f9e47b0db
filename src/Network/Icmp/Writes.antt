-- ===== src/Network/Icmp/Writes.antt =====
-- icmp.c: an answer of any length that its buffer holds is written, and into its buffer only.
use frog_os.Base.{ℕ, ◌+◌, ◌≤◌, ◌<◌, ◌≡◌, ◌⊎◌, refl, ◌∙◌, arith, some, inl}
use frog_os.Memory.{Mem, store16}
use frog_os.Memory.Laws.{IsBytes, store16-IsBytes}
use frog_os.Memory.Laws.{store8-outside, store16-outside, memcpy-outside}
use frog_os.Network.Checksum.Laws.{ip_cksum_lem}
use frog_os.Network.Icmp.{write_headers, write_packet, store_cksum, write_echo}
use frog_os.Network.Icmp.Header.{write_headers-outside, write_headers-IsBytes}
use frog_os.Network.Icmp.Echo.{write_packet-IsBytes}

store_cksum-some :
    (buff len field : ℕ) (m : Mem)
    → IsBytes m
    → len ≤ 65536
    → (m' : Mem) × (store_cksum buff len field m ≡ some m')
      × IsBytes m'
      × ((x : ℕ) → (x < field) ⊎ (field + 2 ≤ x) → m' x ≡ m x)
unfolding store_cksum
store_cksum-some buff len field m b small =
    let (c, q, e, _, _, _, _) = ip_cksum_lem m buff len b small in
    (
      store16 m field c,
      rw (store_cksum, e) refl,
      store16-IsBytes m field c b,
      λ x out. store16-outside m field c x out,
    )

write_packet-inside :
    (packet len new : ℕ) (m : Mem) (x : ℕ)
    → len + 34 ≤ 2000
    → (x < new) ⊎ (new + 2000 ≤ x)
    → write_packet packet len new m x ≡ m x
unfolding write_packet
write_packet-inside packet len new m x fits out =
    store8-outside _ (new + 34) 0 x (λ e. absurd (omega arith))
    ∙ store16-outside _ (new + 34 + 2) 0 x (omega arith)
    ∙ memcpy-outside m (new + 34) packet len x (omega arith)

module _ (frame ip packet len new : ℕ) (m : Mem) where
  pub write_echo-some :
      IsBytes m
      → len + 34 ≤ 2000
      → (m' : Mem) × (write_echo frame ip packet len new m ≡ some m')
        × IsBytes m'
        × ((x : ℕ) → (x < new) ⊎ (new + 2000 ≤ x) → m' x ≡ m x)
  unfolding write_echo
  write_echo-some b fits =
      let h = write_headers frame ip len new m in
      let (n, e, nb, kept) =
        store_cksum-some (new + 14) 20 (new + 24) h (write_headers-IsBytes frame ip len new m b)
          (omega arith) in
      let p = write_packet packet len new n in
      let (r, e', rb, kept') =
        store_cksum-some (new + 34) len (new + 36) p
          (write_packet-IsBytes frame ip packet len new n nb) (omega arith) in
      (
        r,
        rw (write_echo, e, e') refl,
        rb,
        λ x out.
            kept' x (omega arith)
            ∙ write_packet-inside packet len new n x fits out
            ∙ kept x (omega arith)
            ∙ write_headers-outside frame ip len new m x (inl (omega arith)),
      )
