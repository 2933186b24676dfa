-- ===== src/Transport.antt =====
-- internal/transport: the packets of the disguised transports. A read is a list of bytes.
pub mod Checksum
pub mod Ip
pub mod Icmp
pub mod EchoTrip
pub mod Panics
pub mod ReplyQueue
pub mod FakeTcp
pub mod SegmentTrip
pub mod Acks
pub mod Replies
mod Tests
use flexbraid.Prelude.{ℕ}

-- A datagram is not for this transport, is taken, or the code indexes a slice out of its range.
pub data Parsed {ℓ} (A : Type ℓ) : Type ℓ where
  ignored panics : Parsed A
  parsed : A → Parsed A
