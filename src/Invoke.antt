-- ===== src/Invoke.antt =====
-- mtproto/invoke.go: the encrypted session of a connection and what its messages do to it.
pub mod State
pub mod Rpc
pub mod Handle
pub mod Fuel
pub mod Packet
pub mod Session
pub mod Loop
pub mod Answer
