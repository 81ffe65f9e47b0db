-- ===== src/Network/Tests.antt =====
-- The network code's theorems at concrete inputs.
use frog_os.Base.{ℕ, ◌+◌, ◌*◌, ◌≤◌, ◌<◌, ◌≡◌, ◌⊎◌, refl, arith, some}
use frog_os.Memory.{Mem, copy_in, store8, store16, store32, load16, load32}
use frog_os.Memory.Laws.{store8-IsBytes, IsBytes}
use frog_os.Base.{[], ◌∷◌, ◌++◌, replicate}
use frog_os.Alloc.Bump.{units}
use frog_os.Network.Devices.{Devices, added, null, no_device, alloc_netdev}
use frog_os.Network.Devices.Table.{IsTable, IsAdded, alloc_netdev-IsAdded}
use frog_os.Memory.Frame.{copy_in-IsBytes}
use frog_os.Network.Pool.{Net, buffer, take_buffer, net_alloc, net_free}
use frog_os.Network.Host.{Host}
use native.Mathlib.Decide.{dec_lt}
use frog_os.Base.{inl, inr}
use frog_os.Memory.Bytes.{copy_in-outside}
use frog_os.Network.Pool.Chain.{IsClear}
use frog_os.Network.Icmp.{icmp_process_packet}
use frog_os.Network.Icmp.Echo.{Echoes, icmp_process_packet-Echoes}
use frog_os.Network.Arp.{arp_process_packet}
use frog_os.Network.Arp.Reply.{Answers, arp_process_packet-Answers}
use frog_os.Network.Pool.Ownership.{IsNet, Allocated, net_alloc-IsNet, net_free-IsNet}
use frog_os.Network.Checksum.{ip_cksum, htons, htonl}
use frog_os.Network.Checksum.Laws.{total, ip_cksum_lem, ip_cksum-ip_cksum, network_order}

-- A header that starts with the byte 0x45 and has 64 hops left.
abbrev header : Mem
header = store8 (store8 (λ x. 0) 0x1000 0x45) 0x1008 64

header-IsBytes : IsBytes header
header-IsBytes = store8-IsBytes _ 0x1008 64 (store8-IsBytes (λ x. 0) 0x1000 0x45 (λ x. omega arith))

ip_cksum_lem_example :
    (c : ℕ) × (q : ℕ) × (ip_cksum 0 header 0x1000 20 ≡ some c)
    × (0 < q)
    × (total header 0x1000 20 + c ≡ 65535 * q)
    × (c ≤ 65535)
    × ((c < 65535) ⊎ (total header 0x1000 20 ≡ 0))
ip_cksum_lem_example = ip_cksum_lem header 0x1000 20 header-IsBytes (omega arith)

ip_cksum-ip_cksum_example :
    (c : ℕ) × (ip_cksum 0 header 0x1000 20 ≡ some c)
    × (ip_cksum 0 (store16 header (0x1000 + 2 * 5) c) 0x1000 20 ≡ some 0)
unfolding store8
ip_cksum-ip_cksum_example =
    ip_cksum-ip_cksum header 0x1000 20 5 header-IsBytes (omega arith) (omega arith)
      (unfold load16 in refl)

network_order_example :
    let m₁ = store16 header 0x2000 (htons 0x0806) in
    let m₂ = store32 header 0x2000 (htonl 0xc0a8c94d) in
    (m₁ 0x2000 * 256 + m₁ (0x2000 + 1) ≡ 0x0806)
    × (htons (load16 m₁ 0x2000) ≡ 0x0806)
    × (((m₂ 0x2000 * 256 + m₂ (0x2000 + 1)) * 256 + m₂ (0x2000 + 2)) * 256 + m₂ (0x2000 + 3)
        ≡ 0xc0a8c94d)
    × (htonl (load32 m₂ 0x2000) ≡ 0xc0a8c94d)
network_order_example = network_order header 0x2000 0x0806 0xc0a8c94d (omega arith) (omega arith)

-- One free block, from 0x3000 to 0x20000; one buffer is held and none is free.
abbrev one_held : Net
one_held = record {
  buffers = 0;
  store = record { high_mem = 0x3000; bytes = store32 (store32 (λ x. 0) 0x3000 0x1d000) 0x3004 0 };
}

one_held-IsNet : IsNet 0x20000 one_held (0x1010 ∷ []) []
unfolding load32 store32
one_held-IsNet = record { pool = refl; bump = omega arith; layout = omega arith }

net_alloc-IsNet_example : Allocated 0x20000 one_held (0x1010 ∷ []) [] (net_alloc one_held)
net_alloc-IsNet_example = net_alloc-IsNet 0x20000 one_held (0x1010 ∷ []) [] one_held-IsNet

net_free-IsNet_example : IsNet 0x20000 (net_free 0x1010 one_held) ([] ++ []) (0x1010 ∷ [])
net_free-IsNet_example = net_free-IsNet 0x20000 0x1010 one_held [] [] [] one_held-IsNet

-- An ARP request for 192.168.201.77 from 192.168.201.1, behind the sender's address at 0x8006, and one
-- free buffer.
abbrev request : Mem
request =
    copy_in (λ x. 0) 0x8006
      (0x02 ∷ 0x00 ∷ 0x00 ∷ 0x00 ∷ 0x00 ∷ 0x01 ∷ 0x08 ∷ 0x06 ∷ 0x00 ∷ 0x01 ∷ 0x08 ∷ 0x00 ∷ 6 ∷ 4
        ∷ 0x00 ∷ 0x01 ∷ 0x02 ∷ 0x00 ∷ 0x00 ∷ 0x00 ∷ 0x00 ∷ 0x01 ∷ 192 ∷ 168 ∷ 201 ∷ 1 ∷ 0 ∷ 0 ∷ 0
        ∷ 0 ∷ 0 ∷ 0 ∷ 192 ∷ 168 ∷ 201 ∷ 77 ∷ [])

request-IsBytes : IsBytes request
request-IsBytes = copy_in-IsBytes (λ x. 0) 0x8006 _ (λ x. omega arith)

-- A driver without state, which takes every frame.
abbrev send : ℕ → ℕ → Host ℕ → ℕ × Host ℕ
send frame len h = (1, h)

abbrev host : Host ℕ
host = record {
  net = record { buffers = 0x1010; store = record { high_mem = 0x3000; bytes = request } };
  dev = record {
    dev_no = 0;
    hw_addr = 0x52 ∷ 0x54 ∷ 0 ∷ 0x12 ∷ 0x34 ∷ 0x56 ∷ [];
    ipv4_addr = 0x4dc9a8c0;
    ipv4_netmask = 0x00ffffff;
    needs_work = 0;
    priv = 0;
    rx_packets = 1;
    tx_packets = 0;
  };
  card = 0;
}

abbrev after_alloc : Net
after_alloc = record { buffers = 0; store = host.net.store }

host-net_alloc : net_alloc host.net ≡ buffer 0x1010 after_alloc
unfolding net_alloc take_buffer load32 load16 copy_in store8
host-net_alloc = refl

arp_process_packet-Answers_example :
    Answers ℕ send host 0x8006 0x800e 0x1010 after_alloc
      (arp_process_packet ℕ send 0x8006 0x800e host)
arp_process_packet-Answers_example =
    arp_process_packet-Answers ℕ send host 0x8006 0x800e 0x1010 after_alloc refl (omega arith)
      request-IsBytes request-IsBytes host-net_alloc (omega arith) (omega arith) (omega arith)

abbrev devices : Devices
devices = record { net_devs = replicate 16 no_device; net_num_devs = 2; store = one_held.store }

devices-IsTable : IsTable 0x20000 devices
devices-IsTable = record { entries = refl; used = omega arith; bump = one_held-IsNet.bump }

alloc_netdev-IsAdded_example :
    ((d' : Devices) × (alloc_netdev 100 devices ≡ added 2 d') × IsAdded 0x20000 100 devices d')
    ⊎ (((devices.net_num_devs ≡ 16) ⊎ (0x20000 ≤ 0x3000 + units 100))
        × (alloc_netdev 100 devices ≡ null devices))
alloc_netdev-IsAdded_example =
    alloc_netdev-IsAdded 0x20000 100 devices devices-IsTable (omega arith)

-- An echo request of 12 bytes, at 0x8022.
abbrev echo_request : Mem
echo_request =
    copy_in (λ x. 0) 0x8022 (8 ∷ 0 ∷ 0 ∷ 0 ∷ 0x12 ∷ 0x34 ∷ 0 ∷ 1 ∷ 0x61 ∷ 0x62 ∷ 0x63 ∷ 0x64 ∷ [])

echo_request-IsBytes : IsBytes echo_request
echo_request-IsBytes = copy_in-IsBytes (λ x. 0) 0x8022 _ (λ x. omega arith)

abbrev echo_host : Host ℕ
echo_host = record host {
  net = record { buffers = 0x1010; store = record { high_mem = 0x3000; bytes = echo_request } };
}

abbrev after_echo_alloc : Net
after_echo_alloc = record { buffers = 0; store = echo_host.net.store }

echo_host-net_alloc : net_alloc echo_host.net ≡ buffer 0x1010 after_echo_alloc
unfolding net_alloc take_buffer load32 load16 copy_in store8
echo_host-net_alloc = refl

echo_buffer-IsClear : IsClear echo_request 0x1010
echo_buffer-IsClear i = elim (dec_lt i 2000) [
  | yes near ↦ inl (copy_in-outside (λ x. 0) 0x8022 (0x1010 + i) _ (omega arith))
  | no far ↦ inr (inr (omega arith))
]

icmp_process_packet-Echoes_example :
    Echoes ℕ send echo_host 0x8000 0x800e 0x8022 12 0x1010 after_echo_alloc
      (icmp_process_packet ℕ send 0x8000 0x800e 0x8022 12 echo_host)
icmp_process_packet-Echoes_example =
    icmp_process_packet-Echoes ℕ send echo_host 0x8000 0x800e 0x8022 12 0x1010 after_echo_alloc
      echo_request-IsBytes echo_host-net_alloc (omega arith) echo_buffer-IsClear (omega arith)
      (omega arith) (omega arith) (omega arith) (omega arith)
