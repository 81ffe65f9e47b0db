-- ===== src/Network.antt =====
-- net.c and ipv4.c: the byte orders, the Internet checksum and the frame buffers.
pub mod Checksum
pub mod Pool
pub mod Host
pub mod Devices
pub mod Arp
pub mod Icmp
pub mod Ether
mod Tests
