-- ===== src/Lib.antt =====
-- FrogOS: a model of the kernel's C code for the 32-bit x86, and what makes its parts correct.
--
-- The program. `cmain.c` clears the screen, sets up the memory (`memory.c`), the interrupt table and
-- the interrupt controllers (`irq.c`), the timer, the keyboard (`keyboard.c`) and the network card,
-- and then handles frames and keys for ever. The keyboard's interrupt decodes scan codes into a ring
-- of keys that the main loop takes from; the text goes to the screen through `lib/conio.c`; device
-- code takes its memory from the allocator and links its handlers into the chains of `irq.c`.
--
-- The files.
--   Base: lists, words and Boolean tests over the native numbers; Base/Bits has the laws of bitwise
--     and, or and not on words, the constants' part of them by evaluation.
--   Memory: the byte-addressed memory as a function, little-endian accesses, and the copies and fills
--     of lib/memset.c and lib/memcpy.c, and lib/memcmp.c; Memory/Laws says what an access sees of another.
--   Keyboard: keyboard.c, include/conio.h and include/kbd_scancode.h. Keyboard/Queue is the ring
--     (kbd_isempty, kbd_enqueue, kbd_dequeue), Keyboard/Fifo the queue it stands for, and
--     Keyboard/Decoder the function `decode` with its switches extended, make and break.
--   Alloc: memory.c. `Store` is `high_mem` and the memory; walk is the loop of `alloc`, split and bump
--     its two ways to take a block apart. Alloc/Print is print_mem, as the lines that it prints.
--   Console: lib/conio.c and lib/strlen.c. `Screen` is the video memory, the cursor and the writes to
--     the ports of the CRT controller; Console/Terminal is the terminal it shows.
--   Irq: irq.c. `Irqs` is the table irq_handlers, the memory with the handler records, the ports and
--     the interrupt flag. The port space is a parameter (`Bus`); Irq/Masks states what the 8259's data
--     sheet says of its initialisation and of the mask registers (`HasPics`). What a handler does is
--     the parameter `call`.
--   Irq/Idt: the interrupt descriptor table that irq.c fills, and its setup of the 8259s.
--   Division: lib/gcc.c, the 64-bit division __udivmoddi4.
--   Network: of net.c and ipv4.c the byte orders and ip_cksum (Network/Checksum), and the frame buffers
--     of net_alloc and net_free over the allocator (Network/Pool). Network/Host is an interface of
--     include/net.h with the memory and the driver's state; Network/Devices is the table of net.c;
--     Network/Arp, Network/Icmp and Network/Ether are arp.c, icmp.c, and ether.c with ipv4.c. The driver's
--     tx_packet is a parameter of all three.
--   Ports: the port accesses of include/port.h, a parameter (`Ports`) of the models of pci.c and pcnet32.c.
--   Pci: pci.c. Pci/Scan is its enumeration, with the table `pcidevs` and, as a parameter, a
--     driver's probe that may not come back; Pci/Scan/Found states, over the configuration space, which
--     functions there are to find, and Pci/Scan/Refine is about machines without a card of the driver.
--   Startup: init_kbd of keyboard.c and set_pit of pit.c, with the memory that memory.c and irq.c share;
--     Startup/Cmain is the start of the kernel in cmain.c up to the keyboard, over the addresses that the
--     linker chooses (`Image`) and a timer whose ports are no controller's (`HasPit`).
--   Timer: the count of pit.c and lib/sleep.c, over what the counter reads after each `hlt`.
--   Info: print_info.c, as the lines that it prints.
--   Main: cmain.c's loop over the keys; what printf shows is a parameter.
--   Paging: paging.c. Pcnet32: pcnet32.c, its registers (Pcnet32/Registers), its two rings of
--     descriptors (Pcnet32/Ring) and its set-up (Pcnet32/Probe), with the wait for the timer over what the
--     counter reads and the data sheet's start of the card (`HasCard`); the rings give the received frames
--     to ether_process_frame. Pcnet32/Work puts the card, the protocols and the frame buffers together:
--     what each of their handlers leaves of the rings and of the pool (Network/Pool/Area); Pcnet32/Probe
--     leads to the state that it starts from.
--
-- Fuel. `decode` calls itself at most once, after it has set its state to 0, so two rounds are enough.
-- The loops of `alloc`, `print_mem` and the handler chains follow pointers: 2 ^ 28 blocks of 16 bytes and 2 ^ 29
-- records of 12 bytes do not fit into 32 bits of address, so lists that lie apart are shorter than the
-- fuel. A denominator has a bit among 64, so the division's loops take at most 64 and 65 rounds, and a
-- 32-bit sum has no carry left after two rounds, so three rounds end the checksum's fold.
-- The buses of the PCI enumeration nest at most 256 deep where every bridge leads to a bus of a higher
-- number; the receive loop makes at most as many rounds as the ring has descriptors.
--
-- Integers. Numbers are natural numbers; an operation on `uint32_t`, `uint16_t` or `uint8_t` that can
-- wrap has its wrap-around written out (u32, u16, u8, sub32, not32). A C array is a list, and an access
-- out of range is an outcome of its own where the code can make one (the scan code tables, `pcidevs`, and
-- the interrupt line of the network card).
--
-- Not modelled: the assembler files; lib/printf.c, lib/printf.h, include/float.h, include/multiboot.h,
-- include/multiboot2.h and the standard headers, which are copies of other projects' code; text that is
-- only printed, as in lib/dump.c; and what the development does not reach yet: the outer loop of
-- cmain.c and lib/crc32.c. Interrupts do not come in between the steps of a function, so no key comes in
-- while the main loop handles those that wait.
pub mod Base
pub mod Ports
pub mod Memory
pub mod Alloc
pub mod Irq
pub mod Console
pub mod Keyboard
pub mod Division
pub mod Paging
pub mod Pci
pub mod Network
pub mod Pcnet32
pub mod Startup
pub mod Timer
pub mod Main
pub mod Info
