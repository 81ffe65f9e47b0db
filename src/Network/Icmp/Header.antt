-- ===== src/Network/Icmp/Header.antt =====
-- The Ethernet header and the IPv4 header of the answer to an echo request.
use frog_os.Base.{ℕ, ◌+◌, ◌*◌, ◌≤◌, ◌<◌, ◌≡◌, ◌⊎◌, refl, ◌∙◌, arith, u8, inl}
use frog_os.Base.{bit_and, bit_or, all_below, eq_below}
use frog_os.Memory.{Mem, load32, store8, store16, store32, memcpy}
use frog_os.Memory.Laws.{IsBytes, store8-IsBytes, store16-IsBytes, store32-IsBytes, memcpy-IsBytes}
use frog_os.Memory.Laws.{store8-outside, store16-outside, store32-outside, memcpy-outside}
use frog_os.Memory.Laws.{memcpy-inside, load32-same, load32-lt}
use frog_os.Memory.Laws.{load32-store32_self, load32-store32_ne}
use frog_os.Network.Checksum.{htons}
use frog_os.Network.Icmp.{write_fixed, write_headers}

abbrev pub Off : ℕ → ℕ → ℕ → Type 0
Off x a n = (x < a) ⊎ (a + n ≤ x)

module _ (frame ip len new : ℕ) (m : Mem) where
  write_fixed-outside :
      (x : ℕ)
      → Off x new 26 ⊎ ((new + 24 ≤ x) × (x < new + 26))
      → write_fixed frame ip len new m x ≡ m x
  unfolding write_fixed
  write_fixed-outside x out =
      store8-outside _ (new + 14 + 9) _ x (λ e. absurd (omega arith))
      ∙ store8-outside _ (new + 14 + 8) _ x (λ e. absurd (omega arith))
      ∙ store16-outside _ (new + 14 + 4) _ x (omega arith)
      ∙ store16-outside _ (new + 14 + 2) _ x (omega arith)
      ∙ store8-outside _ (new + 14) _ x (λ e. absurd (omega arith))
      ∙ store8-outside _ (new + 14) _ x (λ e. absurd (omega arith))
      ∙ store16-outside _ (new + 12) _ x (omega arith)
      ∙ memcpy-outside _ (new + 6) frame 6 x (omega arith)
      ∙ memcpy-outside m new (frame + 6) 6 x (omega arith)

  write_fixed-IsBytes : IsBytes m → IsBytes (write_fixed frame ip len new m)
  unfolding write_fixed
  write_fixed-IsBytes b = store8-IsBytes _ _ _ (
      store8-IsBytes _ _ _ (
        store16-IsBytes _ _ _ (
          store16-IsBytes _ _ _ (
            store8-IsBytes _ _ _ (
              store8-IsBytes _ _ _
                (store16-IsBytes _ _ _ (memcpy-IsBytes _ _ _ _ (memcpy-IsBytes m _ _ _ b))))))))

  -- The addresses are written last.
  addresses-outside :
      (x : ℕ)
      → Off x (new + 26) 8
      → write_headers frame ip len new m x ≡ write_fixed frame ip len new m x
  unfolding write_headers
  addresses-outside x out =
      store32-outside _ (new + 14 + 16) _ x (omega arith)
      ∙ store32-outside _ (new + 14 + 12) _ x (omega arith)

  -- The headers leave the bytes outside of them alone, and those of the checksum.
  pub write_headers-outside :
      (x : ℕ)
      → Off x new 34 ⊎ ((new + 24 ≤ x) × (x < new + 26))
      → write_headers frame ip len new m x ≡ m x
  write_headers-outside x out =
      addresses-outside x (omega arith) ∙ write_fixed-outside x (omega arith)

  pub write_headers-IsBytes : IsBytes m → IsBytes (write_headers frame ip len new m)
  unfolding write_headers
  write_headers-IsBytes b = store32-IsBytes _ _ _ (store32-IsBytes _ _ _ (write_fixed-IsBytes b))

  fixed_tail :
      (write_fixed frame ip len new m (new + 22) ≡ 64)
      × (write_fixed frame ip len new m (new + 23) ≡ 1)
  unfolding write_fixed store8 store16
  fixed_tail = (ground arith, ground arith)

  fixed_kind :
      (write_fixed frame ip len new m (new + 12) ≡ 8)
      × (write_fixed frame ip len new m (new + 13) ≡ 0)
  unfolding write_fixed store8 store16 htons
  fixed_kind = (ground arith, ground arith)

  fixed_length :
      20 + len < 65536
      → write_fixed frame ip len new m (new + 16) * 256 + write_fixed frame ip len new m (new + 17)
        ≡ 20 + len
  unfolding write_fixed store8 store16 htons
  fixed_length h = ground arith

  fixed_version : IsBytes m → write_fixed frame ip len new m (new + 14) ≡ 0x45
  unfolding write_fixed store8 store16 all_below
  fixed_version b =
      let v = memcpy (memcpy m new (frame + 6) 6) (new + 6) frame 6 (new + 14) in
      let small : v < 256 =
        memcpy-IsBytes _ _ _ _ (memcpy-IsBytes m new (frame + 6) 6 b) (new + 14) in
      let table =
        eq_below 256 (λ x. u8 (bit_or (bit_and (u8 (bit_or (bit_and x 0xf0) 5)) 0x0f) 0x40))
          (λ x. 0x45) v refl small in
      ground (arith, table)

  -- The Ethernet header lies in front of all other writes.
  fixed_ether :
      (x : ℕ)
      → x < new + 12
      → write_fixed frame ip len new m x ≡ memcpy (memcpy m new (frame + 6) 6) (new + 6) frame 6 x
  unfolding write_fixed
  fixed_ether x lt =
      store8-outside _ (new + 14 + 9) _ x (λ e. absurd (omega arith))
      ∙ store8-outside _ (new + 14 + 8) _ x (λ e. absurd (omega arith))
      ∙ store16-outside _ (new + 14 + 4) _ x (omega arith)
      ∙ store16-outside _ (new + 14 + 2) _ x (omega arith)
      ∙ store8-outside _ (new + 14) _ x (λ e. absurd (omega arith))
      ∙ store8-outside _ (new + 14) _ x (λ e. absurd (omega arith))
      ∙ store16-outside _ (new + 12) _ x (omega arith)

-- The answer's headers: its Ethernet addresses and its IPv4 addresses are the request's, swapped; it is
-- IPv4 without options, its length is the packet's with the header's, and its protocol is ICMP.
pub record IsHeader (frame ip len new : ℕ) (m m' : Mem) : Type 0 where
  pub to : (i : ℕ) → i < 6 → m' (new + i) ≡ m (frame + 6 + i)
  pub from : (i : ℕ) → i < 6 → m' (new + 6 + i) ≡ m (frame + i)
  pub kind : (m' (new + 12) ≡ 8) × (m' (new + 13) ≡ 0)
  pub version : m' (new + 14) ≡ 0x45
  pub size : m' (new + 16) * 256 + m' (new + 17) ≡ 20 + len
  pub tail : (m' (new + 22) ≡ 64) × (m' (new + 23) ≡ 1)
  pub source : load32 m' (new + 26) ≡ load32 m (ip + 16)
  pub dest : load32 m' (new + 30) ≡ load32 m (ip + 12)

module _ (frame ip len new : ℕ) (m : Mem) (b : IsBytes m) (small : len + 34 ≤ 2000)
    (frame_apart : (new + 2000 ≤ frame) ⊎ (frame + 12 ≤ new))
    (ip_apart : (new + 2000 ≤ ip) ⊎ (ip + 20 ≤ new)) where
  headers-source : load32 (write_headers frame ip len new m) (new + 26) ≡ load32 m (ip + 16)
  unfolding write_headers
  headers-source =
      let f = write_fixed frame ip len new m in
      let at : new + 14 + 12 ≡ new + 26 = omega arith in
      rw (← at) (
        load32-store32_ne _ (new + 14 + 16) _ (new + 14 + 12) (omega arith)
        ∙ load32-store32_self f (new + 14 + 12) _
            (load32-lt f (ip + 16) (write_fixed-IsBytes frame ip len new m b))
        ∙ load32-same (ip + 16) m f
            (λ x lo hi. write_fixed-outside frame ip len new m x (inl (omega arith))))

  headers-dest : load32 (write_headers frame ip len new m) (new + 30) ≡ load32 m (ip + 12)
  unfolding write_headers
  headers-dest =
      let f = write_fixed frame ip len new m in
      let n = store32 f (new + 14 + 12) (load32 f (ip + 16)) in
      let at : new + 14 + 16 ≡ new + 30 = omega arith in
      rw (← at) (
        load32-store32_self n (new + 14 + 16) _
          (load32-lt n (ip + 12) (store32-IsBytes f _ _ (write_fixed-IsBytes frame ip len new m b)))
        ∙ load32-same (ip + 12) m n (λ x lo hi.
          store32-outside f (new + 14 + 12) _ x (omega arith)
          ∙ write_fixed-outside frame ip len new m x (inl (omega arith))))

  -- Writes outside of the headers, and to the checksum, keep them.
  pub headers-IsHeader :
      (m' : Mem)
      → ((x : ℕ)
          → new ≤ x
          → x < new + 34
          → Off x (new + 24) 2
          → m' x ≡ write_headers frame ip len new m x)
      → IsHeader frame ip len new m m'
  headers-IsHeader m' same =
      let fixed = λ (x : ℕ) (lo : new ≤ x) (hi : x < new + 24).
        same x lo (omega arith) (omega arith)
        ∙ addresses-outside frame ip len new m x (omega arith) in
      let one = memcpy m new (frame + 6) 6 in
      let (ttl, protocol) = fixed_tail frame ip len new m in
      let (high, low) = fixed_kind frame ip len new m in
      record {
        to = λ i lt.
            fixed (new + i) (omega arith) (omega arith)
            ∙ fixed_ether frame ip len new m (new + i) (omega arith)
            ∙ memcpy-outside one (new + 6) frame 6 (new + i) (omega arith)
            ∙ memcpy-inside m new (frame + 6) 6 i b (omega arith) lt;
        from = λ i lt.
            fixed (new + 6 + i) (omega arith) (omega arith)
            ∙ fixed_ether frame ip len new m (new + 6 + i) (omega arith)
            ∙ memcpy-inside one (new + 6) frame 6 i (memcpy-IsBytes m _ _ _ b) (omega arith) lt
            ∙ memcpy-outside m new (frame + 6) 6 (frame + i) (omega arith);
        kind = (
          fixed (new + 12) (omega arith) (omega arith) ∙ high,
          fixed (new + 13) (omega arith) (omega arith) ∙ low,
        );
        version = fixed (new + 14) (omega arith) (omega arith) ∙ fixed_version frame ip len new m b;
        size =
            rw
              (
                fixed (new + 16) (omega arith) (omega arith),
                fixed (new + 17) (omega arith) (omega arith),
              )
              (fixed_length frame ip len new m (omega arith));
        tail = (
          fixed (new + 22) (omega arith) (omega arith) ∙ ttl,
          fixed (new + 23) (omega arith) (omega arith) ∙ protocol,
        );
        source =
            load32-same (new + 26) (write_headers frame ip len new m) m'
              (λ x lo hi. same x (omega arith) (omega arith) (omega arith))
            ∙ headers-source;
        dest =
            load32-same (new + 30) (write_headers frame ip len new m) m'
              (λ x lo hi. same x (omega arith) (omega arith) (omega arith))
            ∙ headers-dest;
      }
