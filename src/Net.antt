-- ===== src/Net.antt =====
-- The gateway of src/net_demo.c.
pub mod Checksum
pub mod Verify
pub mod Frame
pub mod Forward
pub mod Process
pub mod Task
pub mod Burst
pub mod Round
pub mod Handed
pub mod Announced
pub mod Stuck
pub mod Start
pub mod Loop
pub mod Pings
pub mod Paced
pub mod Exchange
pub mod Header
pub mod Halves
pub mod Transport
pub mod Segment
pub mod Forwarded
pub mod Outward
pub mod Return
pub mod Conversation
pub mod Ping
pub mod Pinged
pub mod Echo
pub mod Guarded
pub mod Inbound
pub mod Tests
mod TaskTests
mod TransportTests
pub mod ConversationTests
mod PingedTests
mod StartTests
