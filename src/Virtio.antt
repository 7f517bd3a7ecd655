-- ===== src/Virtio.antt =====
-- bsp/virtio_net.h and bsp/virtio_net.c: the receive path from the device's used ring through the
-- completion queue back to the available ring, and the transmit path.
pub mod Rx
pub mod Receive
pub mod Fifo
pub mod Conserve
pub mod Ledger
pub mod Owner
pub mod Tx
pub mod Slots
pub mod Send
pub mod Device
pub mod Ready
pub mod Marks
pub mod BringUp
pub mod Scan
pub mod Board
pub mod Up
pub mod Start
pub mod Calls
pub mod Single
pub mod Interrupt
pub mod Served
pub mod Wait
pub mod Poll
pub mod Tests
pub mod BoardTests
mod OwnerTests
pub mod PollTests
