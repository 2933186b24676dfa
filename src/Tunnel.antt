-- ===== src/Tunnel.antt =====
-- internal/tunnel: the two ends of the tunnel, around the parts that have modules of their own.
pub mod Wire
pub mod Params
pub mod Announce
pub mod Client
pub mod Paths
pub mod Server
pub mod Forged
pub mod Once
pub mod Bounded
pub mod Tables
pub mod Handshake
pub mod Reaches
pub mod Probes
pub mod Egress
pub mod Together
pub mod Fits
pub mod Agreement
pub mod Cadence
mod Tests
