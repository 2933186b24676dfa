-- ===== src/Tunnel/Params.antt =====
-- internal/tunnel/tunnel.go: the parameters that a configuration gives the codecs, the monitors and
-- the scheduler.
use Prim.Native.String.{String}
use text.Mathlib.Text.{◌==◌ as str_eq}
use flexbraid.Prelude.{
  ℕ, ◌+◌, ◌*◌, true, false, not, ◌&&◌, ◌||◌, Option, none, some, ltb, ◌==◌, if◌then◌else◌,
}
use flexbraid.Prelude.Int.{ℤ, pos, negsuc, pos_part, ◌-ℤ◌, lt_ℤ}
use flexbraid.Float.{Float}
use flexbraid.Frame.{header_size, tag_size}
use flexbraid.Fec.{AdaptiveParams, Params, enabled, parity_header_size}
use flexbraid.Fec.Redundancy.{at_least_one}
use flexbraid.Health.{Options}
use flexbraid.Config.{Fec, Wan, Health}

abbrev pub path_mtu : ℕ
path_mtu = 1500

-- `fec.DefaultDataShards` unless more than 0 are asked for.
abbrev pub shards_or_default : ℤ → ℕ
shards_or_default (pos n) = if n == 0 then 10 else n
shards_or_default (negsuc n) = 10

pub data ParamsError : Type 0 where
  invalid_max_loss unknown_mode too_many_shards mtu_too_large : ParamsError

pub data Derived {ℓ} (A : Type ℓ) : Type ℓ where
  derived : A → Derived A
  refused : ParamsError → Derived A

module _ (fl : Float) where
  open fl use {Carrier, milli, sub, mul, div, add, lt, le, of_int, to_int, ceil}

  -- `time.Duration(x * float64(time.Second))`; a negative duration acts like 0 wherever one is used.
  abbrev pub seconds : Carrier → ℕ
  seconds x = pos_part (to_int (mul x (milli 1_000_000_000_000)))

  abbrev pub minutes : Carrier → ℕ
  minutes x = pos_part (to_int (mul x (milli 60_000_000_000_000)))

  -- The ceiling of a WAN: its own, or that of the section.
  abbrev pub ceiling : Fec fl → Option (Wan fl) → Carrier
  ceiling f none = f.max_loss_pct
  ceiling f (some w) = elim w.fec_max_loss_pct [ none ↦ f.max_loss_pct | some x ↦ x ]

  unfoldable pub adaptive_params : Fec fl → AdaptiveParams fl
  adaptive_params f = record {
    on_loss_pct = f.adapt_min_loss_pct;
    off_loss_pct = f.adapt_resume_pct;
    hold = seconds f.adapt_hold_sec;
    max_loss_pct = f.max_loss_pct;
    safety = milli 1300;
  }

  -- The tests after the switch: the field of 256 shards, and the largest parity frame on the path.
  unfoldable pub fit : ℤ → Params fl → Derived (Params fl)
  fit mtu p =
      let headroom = header_size + tag_size + parity_header_size p.data_shards in
      if ltb 256 (p.data_shards + p.parity_shards)
      then refused too_many_shards
      else if lt_ℤ (pos path_mtu -ℤ pos headroom) mtu
      then refused mtu_too_large
      else derived p

  abbrev pub coded : ℕ → ℤ → ℕ → Option (AdaptiveParams fl) → Params fl
  coded k parity timeout adaptive = record {
    data_shards = k;
    parity_shards = at_least_one parity;
    block_timeout = timeout;
    adaptive = adaptive;
    cross_path = false;
    cross_path_min_parity = 0;
  }

  unfoldable pub crosspath_params : Fec fl → ℕ → Params fl
  crosspath_params f timeout =
      let k = shards_or_default f.data_shards in
      let least = at_least_one (ceil (mul (of_int (pos k)) f.protection_level)) in
      record {
        data_shards = k;
        parity_shards = least;
        block_timeout = timeout;
        adaptive = none;
        cross_path = true;
        cross_path_min_parity = least;
      }

  abbrev pub pass_through : ℕ → Params fl
  pass_through timeout = record {
    data_shards = 0;
    parity_shards = 0;
    block_timeout = timeout;
    adaptive = none;
    cross_path = false;
    cross_path_min_parity = 0;
  }

  -- `fecParamsFor`, from the two fields of the configuration that it reads.
  unfoldable pub fec_params_for : Fec fl → ℤ → Option (Wan fl) → Derived (Params fl)
  fec_params_for f mtu wan =
      let timeout = pos_part f.block_timeout_ms * 1_000_000 in
      let k = shards_or_default f.data_shards in
      let shards = of_int (pos k) in
      let l = div (ceiling f wan) (milli 100_000) in
      if not f.enabled || str_eq f.mode "off"
      then derived (pass_through timeout)
      else if str_eq f.mode "crosspath"
      then derived (crosspath_params f timeout)
      else if str_eq f.mode "fixed"
      then fit mtu
          (coded k (ceil (div (mul shards f.fixed_overhead_pct) (milli 100_000))) timeout none)
      else if str_eq f.mode "adaptive"
      then if le l (milli 0) || le (milli 1000) l
        then refused invalid_max_loss
        else fit mtu (
            coded k (ceil (div (mul shards l) (sub (milli 1000) l))) timeout
              (some (adaptive_params f)))
      else refused unknown_mode

  abbrev pub overhead : Params fl → Carrier
  overhead p = div (of_int (pos p.parity_shards)) (of_int (pos (p.data_shards + p.parity_shards)))

  unfoldable pub fec_compensable_loss : Params fl → Carrier
  fec_compensable_loss p = if enabled fl p then overhead p else milli 0

  unfoldable pub monitor_max_loss : Params fl → Carrier
  monitor_max_loss p = let l = fec_compensable_loss p in if lt (milli 0) l then l else milli 10

  unfoldable pub effective_capacity : ℤ → Carrier → Params fl → String → Carrier
  effective_capacity capacity_mbps wan_weight p balance_by =
      let declared = of_int capacity_mbps in
      let known = if le declared (milli 0) then milli 1000 else declared in
      let coding = str_eq balance_by "fec" && enabled fl p in
      let left = if coding then mul known (sub (milli 1000) (overhead p)) else known in
      if str_eq balance_by "roundrobin"
      then milli 1000
      else if lt (milli 0) wan_weight
      then mul left wan_weight
      else left

  unfoldable pub health_options : Health fl → Carrier → Options fl
  health_options h max_loss = record {
    max_loss = max_loss;
    degrade_after = seconds h.degrade_sec;
    recover_after = minutes h.recover_min;
    down_after_misses = pos_part h.down_after_misses;
    down_grace = seconds h.down_grace_sec;
    loss_alpha_fast = h.loss_alpha_fast;
    loss_alpha_slow = h.loss_alpha_slow;
    jitter_alpha = h.jitter_alpha;
  }
