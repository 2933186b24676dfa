-- ===== src/Fec.antt =====
-- internal/fec/fec.go: parameters of the codec, and the Reed-Solomon library that it calls.
pub mod Redundancy
pub mod SubHeader
pub mod Encoder
pub mod PathStats
pub mod Block
pub mod Decoder
mod Tests
use flexbraid.Prelude.{
  ℕ, ◌+◌, ◌*◌, ◌≤◌, ◌<◌, ◌≡◌, Bool, true, Option, some, List, ◌++◌, length, ltb,
}
use flexbraid.Float.{Float}

module _ (fl : Float) where
  open fl use {Carrier}

  pub record AdaptiveParams : Type 0 where
    pub on_loss_pct : Carrier
    pub off_loss_pct : Carrier
    pub hold : ℕ
    pub max_loss_pct : Carrier
    pub safety : Carrier

  pub record Params : Type 0 where
    pub data_shards : ℕ
    pub parity_shards : ℕ
    pub block_timeout : ℕ
    pub adaptive : Option AdaptiveParams
    pub cross_path : Bool
    pub cross_path_min_parity : ℕ

  unfoldable pub enabled : Params → Bool
  enabled p = ltb 0 p.parity_shards

abbrev pub parity_hdr_fixed : ℕ
parity_hdr_fixed = 8

abbrev pub parity_header_size : ℕ → ℕ
parity_header_size data_shards = parity_hdr_fixed + 4 * data_shards + 2 * data_shards

-- github.com/klauspost/reedsolomon: a codec for `k` data and `p` parity shards of equal size. `none`
-- is an error.
pub record ReedSolomon : Type 0 where
  -- Whether `New(k, p)` succeeds.
  pub accepts : ℕ → ℕ → Bool
  -- The parity shards that `Encode` fills in.
  pub parity_of : ℕ → ℕ → List (List ℕ) → Option (List (List ℕ))
  -- All shards after `Reconstruct`, where a missing one is `none`.
  pub reconstruct : ℕ → ℕ → List (Option (List ℕ)) → Option (List (List ℕ))
