-- ===== src/Tl.antt =====
-- mtproto/tl.go: the TL binary format, written by `tlBuffer` and read by `tlReader`.
pub mod Constructors
pub mod Writer
pub mod Reader
pub mod Reads
pub mod RoundTrip
pub mod TooLong
