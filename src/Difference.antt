-- ===== src/Difference.antt =====
-- mtproto/difference.go: the data of `updates.getDifference`, its query, and its parsers.
use mt_pro_go.Prelude.{ℕ, List, []}
use mt_pro_go.Prelude.Int.{ℤ, pos}
pub mod Query
pub mod Peer
pub mod Entities
pub mod TextMessage
pub mod Vectors
pub mod Result
pub mod RoundTrip
pub mod VectorRoundTrip
