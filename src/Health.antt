-- ===== src/Health.antt =====
-- internal/health/health.go: the quality monitor and circuit breaker of one path. Times and
-- durations of the thresholds are numbers of nanoseconds, the zero `time.Time` is `none`.
pub mod Edges
pub mod Hysteresis
mod Tests
use flexbraid.Prelude.{
  ℕ, zero, suc, ◌+◌, Bool, true, false, ◌&&◌, ◌||◌, not, Option, none, some, ltb, leb, ◌==◌,
  if◌then◌else◌,
}
use flexbraid.Prelude.Int.{ℤ, pos, ◌+ℤ◌, ◌-ℤ◌, abs, is_positive}
use flexbraid.Float.{Float}

pub data State : Type 0 where
  healthy degraded down : State

abbrev pub is_down : State → Bool
is_down down = true
is_down s = false

abbrev pub is_healthy : State → Bool
is_healthy healthy = true
is_healthy s = false

-- `time.Time` and its `IsZero`; whether `d` has passed since a time that is set.
abbrev pub elapsed : Option ℕ → ℕ → ℕ → Bool
elapsed none now d = false
elapsed (some t) now d = leb (t + d) now

module _ (fl : Float) where
  open fl use {Carrier, milli, add, sub, mul, lt, le, of_int, to_int}

  pub record Options : Type 0 where
    pub max_loss : Carrier
    pub degrade_after : ℕ
    pub recover_after : ℕ
    pub down_after_misses : ℕ
    pub down_grace : ℕ
    pub loss_alpha_fast : Carrier
    pub loss_alpha_slow : Carrier
    pub jitter_alpha : Carrier

  pub record Monitor : Type 0 where
    pub max_loss : Carrier
    pub degrade_aft : ℕ
    pub recover_aft : ℕ
    pub down_aft_miss : ℕ
    pub down_grace : ℕ
    pub alpha_fast : Carrier
    pub alpha_slow : Carrier
    pub jitter_alpha : Carrier
    pub loss : Carrier
    pub rtt : ℤ
    pub jitter : ℤ
    pub state : State
    pub misses : ℕ
    pub miss_since : Option ℕ
    pub cond_since : Option ℕ
    pub revived : Bool
    pub in_band_bad : ℕ

  -- `x <= 0 || x >= 1`, with a default in that case.
  abbrev pub fraction_or : Carrier → Carrier → Carrier
  fraction_or x d = if le x (milli 0) || le (milli 1000) x then d else x

  abbrev pub positive_or : ℕ → ℕ → ℕ
  positive_or n d = if n == 0 then d else n

  unfoldable pub new : Options → Monitor
  new o = record {
    max_loss = fraction_or o.max_loss (milli 200);
    degrade_aft = positive_or o.degrade_after 3_000_000_000;
    recover_aft = positive_or o.recover_after 10_000_000_000;
    down_aft_miss = positive_or o.down_after_misses 3;
    down_grace = o.down_grace;
    alpha_fast = fraction_or o.loss_alpha_fast (milli 400);
    alpha_slow = fraction_or o.loss_alpha_slow (milli 30);
    jitter_alpha = fraction_or o.jitter_alpha (milli 100);
    loss = milli 0;
    rtt = pos 0;
    jitter = pos 0;
    state = healthy;
    misses = 0;
    miss_since = none;
    cond_since = none;
    revived = false;
    in_band_bad = 0;
  }

  unfoldable pub reload : Options → Monitor → Monitor
  reload o m = record m {
    max_loss = fraction_or o.max_loss m.max_loss;
    degrade_aft = positive_or o.degrade_after m.degrade_aft;
    recover_aft = positive_or o.recover_after m.recover_aft;
    down_aft_miss = positive_or o.down_after_misses m.down_aft_miss;
    down_grace = o.down_grace;
    alpha_fast = fraction_or o.loss_alpha_fast m.alpha_fast;
    alpha_slow = fraction_or o.loss_alpha_slow m.alpha_slow;
    jitter_alpha = fraction_or o.jitter_alpha m.jitter_alpha;
  }

  -- The EWMA that the three observers share.
  unfoldable pub blend_loss : Carrier → Monitor → Carrier
  blend_loss x m =
      if lt m.loss x
      then add m.loss (mul m.alpha_fast (sub x m.loss))
      else add m.loss (mul m.alpha_slow (sub x m.loss))

  unfoldable pub set_state : State → Monitor → Monitor
  set_state s m = record m { state = s; cond_since = none; revived = false }

  unfoldable pub note_alive : Monitor → Monitor
  note_alive m =
      let m' = record m { misses = 0; miss_since = none } in
      if is_down m.state && not m.revived
      then record m' { revived = true; loss = milli 0; cond_since = none }
      else m'

  unfoldable pub observe_sample : Carrier → ℤ → Monitor → Monitor
  unfolding blend_loss note_alive
  observe_sample x rtt m =
      let m' = record m { loss = blend_loss x m } in
      let delta = abs (rtt -ℤ m.rtt) in
      let smoothed = m.rtt +ℤ to_int (mul m.jitter_alpha (of_int (rtt -ℤ m.rtt))) in
      if is_positive rtt
      then note_alive (record m' {
        rtt = elim m.rtt [ pos n ↦ if n == 0 then rtt else smoothed | _ ↦ smoothed ];
        jitter = m.jitter +ℤ to_int (mul m.jitter_alpha (of_int (delta -ℤ m.jitter)));
      })
      else m'

  unfoldable pub note_missed_probe : ℕ → Monitor → Monitor
  unfolding set_state
  note_missed_probe now m =
      let m' = record m { misses = m.misses + 1 } in
      if leb m.down_aft_miss (m.misses + 1)
      then (if m.down_grace == 0
          then (if is_down m.state then m' else set_state down m')
          else record m' { miss_since = elim m.miss_since [ none ↦ some now | some t ↦ some t ] })
      else m'

  unfoldable pub observe_in_band : Carrier → Monitor → Monitor
  unfolding blend_loss set_state
  observe_in_band rate m =
      let m' = record m { loss = blend_loss rate m } in
      let bad = record m' { in_band_bad = m.in_band_bad + 1 } in
      if lt m.max_loss rate
      then (if leb 2 (m.in_band_bad + 1) && is_healthy m.state then set_state degraded bad else bad)
      else record m' { in_band_bad = 0 }

  unfoldable pub observe_raw : Carrier → Monitor → Monitor
  unfolding blend_loss
  observe_raw rate m = record m { loss = blend_loss rate m }

  abbrev pub missed_down : ℕ → Monitor → Bool
  missed_down now m =
      leb m.down_aft_miss m.misses && (m.down_grace == 0 || elapsed m.miss_since now m.down_grace)

  abbrev pub over : Monitor → Bool
  over m = lt m.max_loss m.loss

  abbrev pub calm : Monitor → Bool
  calm m = lt m.loss (mul m.max_loss (milli 500))

  -- Start the condition timer, or move to `s` once it has run for `d`.
  unfoldable pub hold : ℕ → ℕ → State → Monitor → Monitor
  unfolding set_state
  hold now d s m = elim m.cond_since [
    | none ↦ record m { cond_since = some now }
    | some t ↦ (if leb (t + d) now then set_state s m else m)
  ]

  tick_in : State → ℕ → Monitor → Monitor
  tick_in healthy now m =
      if missed_down now m
      then set_state down m
      else if over m
      then hold now m.degrade_aft degraded m
      else record m { cond_since = none }
  tick_in degraded now m =
      if missed_down now m
      then set_state down m
      else if over m
      then hold now m.degrade_aft down m
      else if calm m
      then hold now m.recover_aft healthy m
      else record m { cond_since = none }
  tick_in down now m =
      if calm m then hold now m.recover_aft healthy m else record m { cond_since = none }

  unfoldable pub tick : ℕ → Monitor → Monitor
  unfolding tick_in hold
  tick now m = tick_in m.state now m
