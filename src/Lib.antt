-- ===== src/Lib.antt =====
-- The network gateway of ucosii-arm64-qemu: address translation, ARP cache, frame processing and the
-- VirtIO network driver's queues.
--
-- The program is a NAT gateway on uC/OS-II for QEMU's arm64 virt machine. Frames arrive on one of two
-- VirtIO network devices (the LAN and the WAN). The interrupt handler of bsp/virtio_net.c moves
-- finished receive descriptors to a completion queue; a task per device (src/net_demo.c) takes
-- frames off that queue, answers ARP and ICMP echo requests itself, translates the others by the
-- session table of bsp/nat.c, and hands them to the other device's transmit queue.
--
-- Files and code:
--   Prelude, Prelude/*  names shared by all modules; C arrays as lists; machine words with their wrap
--   Addr                IPv4 and MAC addresses (bsp/nat.h)
--   Arp, Arp/*          arp_cache_add, arp_cache_lookup, arp_cache_cleanup of bsp/nat.c
--   Nat, Nat/*          the session table of bsp/nat.c: its two hash tables, the port allocator,
--                       nat_translate_outbound, nat_translate_inbound, nat_cleanup_expired
--   Virtio/Rx           the receive queue of bsp/virtio_net.c: virtio_net_handle_rx_used, and what the
--                       calls of Virtio/Calls do to a device's queue behind their tests; its laws are
--                       in Virtio/Receive and Virtio/Fifo
--   Virtio/Tx           the transmit queue: virtio_net_send_frame_dev, virtio_net_tx_flush_dev; its
--                       laws are in Virtio/Slots and Virtio/Send
--   Mmio                the register accesses of bsp/mmio.h, as a log
--   Virtio/Device       the set-up of one device in virtio_net_init_device and its queues; laws in
--                       Virtio/Ready, Virtio/Marks and Virtio/BringUp
--   Virtio/Scan         virtio_net_scan
--   Virtio/Board        the driver's static variables, virtio_net_init_device, virtio_net_init_all; laws
--                       in Virtio/Up and Virtio/Start
--   Virtio/Calls        virtio_net_peek_rx_buffer_dev, virtio_net_release_rx_buffer_dev and
--                       virtio_net_poll_frame_dev, with their tests of the device
--   Virtio/Single       virtio_net_init and the functions for the default device
--   Virtio/Interrupt    virtio_net_interrupt_handler, the posts and the flushes; laws in Virtio/Served
--   Virtio/Conserve     the receive queue as a step relation of interrupts, releases and polls
--   Virtio/Ledger       that relation with a record of who holds each descriptor; Virtio/Owner has the
--                       queue of virtio_net_prepare_rx
--   Virtio/Wait         virtio_net_has_pending_rx_dev, virtio_net_wait_rx_dev, virtio_net_wait_rx_any; laws in Virtio/Poll
--   Irq, Irq/Dispatch   irq_dispatch of src/irq.c, the table of bsp/bsp_int.c, gic_enable_spi_interrupt
--                       of bsp/gic.c; gic_init is in Irq/Gic
--   Bytes, Bytes/Laws   util_memcpy, util_memset, util_memcmp, util_htons, util_ntohs of src/lib.c
--   Net/Checksum        checksum16 and tcp_udp_checksum of src/net_demo.c; laws in Net/Verify
--   Net/Frame           the frames that src/net_demo.c builds: ARP request and reply, ICMP echo
--                       request and reply; laws in Net/Header, Net/Echo and
--                       Net/Exchange
--   Net/Forward         the NAT forwarding blocks of net_demo_process_frame; laws in Net/Halves,
--                       Net/Transport, Net/Segment and Net/Forwarded
--   Net/Process         net_demo_process_frame; laws in Net/Exchange, Net/Guarded, Net/Inbound,
--                       Net/Outward, Net/Return, Net/Conversation, Net/Ping and Net/Pinged
--   Net/Start           the set-up part of net_demo_run
--   Net/Task            the burst of net_rx_task; laws in Net/Burst and Net/Stuck
--   Net/Round           a round of net_rx_task: the burst, the sends, the flushes and the wait; laws in
--                       Net/Handed and Net/Announced
--   Net/Loop            a round of net_demo_run; laws in Net/Pings and Net/Paced
--   Cache, Cache/Lines  the range functions of bsp/cache.c
--   Uart, Uart/Digits   the number printing of bsp/uart.c
--   Mmu, Mmu/Identity   the translation table of bsp/mmu.c
--   Timer               bsp/timer.c and the tick of bsp/bsp_os.c; laws in Timer/Delay and Timer/Ticks
--   Port, Port/Frame    OSTaskStkInit and OSInitHookBegin of port/os_cpu_c.c
--   Sem, Sem/Count      the semaphores of ucosii/source/os_sem.c, by which the interrupt handler wakes
--                       the receive tasks
-- The modules whose name ends in Tests hold runs of the model on concrete inputs.
--
-- State is passed explicitly. The static variables of a C file are a record (NatState, RxQueue,
-- TxQueue, Gateway), an operation is a function from the old record to the new one and its results, and
-- an array is a list with a write out of bounds written out. OSTime is an argument; one frame is
-- processed at one time. A frame is the memory from its pointer on, a function from offsets to bytes,
-- since src/net_demo.c trusts the lengths that a packet gives and may read past its end. What a local
-- array holds before it is written is an argument, called stale. A call of virtio_net_send_frame_dev
-- from src/net_demo.c is a packet in the result, as no caller looks at the return value; Net/Round hands
-- the packets of a burst to the transmit queues. What a device
-- writes is an argument: the used ring of the receive queue, and the used index of the transmit queue as
-- a function of how often it has been read. Critical sections are single steps, together with the update of
-- the available ring that follows the one of a release or a poll. The error of OSTaskCreate is an
-- argument.
--
-- Loops whose end depends on the device run on fuel: 65536 rounds for the scan of the used ring, whose
-- index is a uint16_t that advances in every round, and 101 for the wait for transmit slots, which
-- counts to 100 and tests once more. A burst runs on as much fuel as its caller gives, where one more
-- than the frames that wait are enough, a cache range of size bytes on size / 64 + 3,
-- and a wait with a timeout on one more than its milliseconds. The fold of a checksum has three rounds: a uint32_t is below 2^17
-- after the first, at most 2^16 after the second, and fits after the third.
--
-- What the device registers answer is a function of the accesses so far, an argument called host. The
-- receive task's burst is taken without an interrupt inside it.
--
-- Not modelled: the copy of uC/OS-II in ucosii/source and its headers, which is Micrium's and of which
-- the semaphores call five functions, parameters here, and the waits read the clock; the start-up code,
-- exception vectors and context switch in assembler; what the receive tasks do while net_demo_run creates
-- them; cache maintenance where the driver calls it; and the console output throughout, but for the line
-- of the tick.
pub mod Prelude
pub mod Addr
pub mod Arp
pub mod Nat
pub mod Virtio
pub mod Bytes
pub mod Net
pub mod Sem
pub mod Mmio
pub mod Irq
pub mod Cache
pub mod Uart
pub mod Mmu
pub mod Port
pub mod Timer
