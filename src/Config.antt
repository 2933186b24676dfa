-- ===== src/Config.antt =====
-- internal/config/config.go: the configuration document. The typed strings (Mode, SchedulerMode,
-- Affinity, BalanceBy, FECMode, TransportMode) are texts, as in the source; a Go int is an integer.
pub mod Checks
pub mod Coding
pub mod Uplinks
pub mod Validate
pub mod Plain
pub mod Ranges
pub mod Sections
pub mod Settled
pub mod Samples
mod Tests
use Prim.Native.String.{String}
use flexbraid.Prelude.{ℕ, Bool, Option, List}
use flexbraid.Prelude.Int.{ℤ}
use flexbraid.Float.{Float}

abbrev pub announce_version : ℕ
announce_version = 1

abbrev pub delivery_max_pending : ℕ
delivery_max_pending = 4096

pub record Delivery : Type 0 where
  pub gap_timeout_ms : ℤ
  pub max_pending : ℤ

pub record Crypto : Type 0 where
  pub key : String
  pub cipher : String

pub record Log : Type 0 where
  pub level : String
  pub file : String

-- `enabled` is a pointer: `none` is nil.
pub record Queue : Type 0 where
  pub enabled : Option Bool
  pub max_bytes : ℤ
  pub drop : String
  pub rate_limit : Bool

module _ (fl : Float) where
  open fl use {Carrier}

  pub record Sched : Type 0 where
    pub mode : String
    pub affinity : String
    pub balance_by : String
    pub capacity_cap_mbps : Carrier

  pub record Fec : Type 0 where
    pub enabled : Bool
    pub mode : String
    pub data_shards : ℤ
    pub max_loss_pct : Carrier
    pub block_timeout_ms : ℤ
    pub fixed_overhead_pct : Carrier
    pub adapt_min_loss_pct : Carrier
    pub adapt_resume_pct : Carrier
    pub adapt_hold_sec : Carrier
    pub protection_level : Carrier

  pub record Wan : Type 0 where
    pub id : String
    pub transport : String
    pub iface : String
    pub local_ip : String
    pub fib : ℤ
    pub capacity_mbps : ℤ
    pub weight : Carrier
    pub fec_max_loss_pct : Option Carrier

  pub record Health : Type 0 where
    pub loss_alpha_fast : Carrier
    pub loss_alpha_slow : Carrier
    pub jitter_alpha : Carrier
    pub degrade_sec : Carrier
    pub recover_min : Carrier
    pub probe_interval : Carrier
    pub down_after_misses : ℤ
    pub down_grace_sec : Carrier

  pub record Telemetry : Type 0 where
    pub listen : String
    pub path : String
    pub interval_sec : Carrier

  pub record Config : Type 0 where
    pub mode : String
    pub listen : String
    pub server : String
    pub wg_peer : String
    pub session_id : String
    pub scheduler : Sched
    pub fec : Fec
    pub mtu : ℤ
    pub wans : List Wan
    pub delivery : Delivery
    pub health : Health
    pub crypto : Crypto
    pub log : Log
    pub telemetry : Telemetry
    pub queue : Queue
    pub transport : String

  pub record ServerAnnounce : Type 0 where
    pub version : ℤ
    pub mtu : ℤ
    pub fec : Fec
