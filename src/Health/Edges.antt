-- ===== src/Health/Edges.antt =====
-- internal/health/health.go: which state changes there are, and when each happens.
use flexbraid.Prelude.{ℕ, ◌≡◌, Bool, true, false, ◌&&◌, arith, if◌then◌else◌}
use flexbraid.Prelude.Int.{ℤ}
use flexbraid.Float.{Float}
use flexbraid.Health.{
  State, healthy, degraded, down, elapsed, Options, Monitor, reload, note_alive, observe_sample,
  note_missed_probe, observe_in_band, observe_raw, missed_down, over, calm, tick,
}

-- The arrows of the state machine. There is none from DOWN to DEGRADED.
pub data Edge : State → State → Type 0 where
  stay : (s : State) → Edge s s
  degrade : Edge healthy degraded
  fail : Edge healthy down
  escalate : Edge degraded down
  restore : Edge degraded healthy
  revive : Edge down healthy

abbrev is_edge : State → State → Bool
is_edge down degraded = false
is_edge s t = true

Edge-of : (s t : State) → is_edge s t ≡ true → Edge s t
Edge-of healthy healthy h = stay healthy
Edge-of healthy degraded h = degrade
Edge-of healthy down h = fail
Edge-of degraded healthy h = restore
Edge-of degraded degraded h = stay degraded
Edge-of degraded down h = escalate
Edge-of down healthy h = revive
Edge-of down degraded h = cc
Edge-of down down h = stay down

module _ (fl : Float) where
  open fl use {Carrier}

  -- The calls that a monitor gets; those that read the clock carry the reading.
  pub data Event : Type 0 where
    sample : Carrier → ℤ → Event
    alive : Event
    missed : ℕ → Event
    in_band : Carrier → Event
    raw : Carrier → Event
    tuned : Options fl → Event
    ticked : ℕ → Event

  unfoldable pub apply : Event → Monitor fl → Monitor fl
  apply (sample x rtt) m = observe_sample fl x rtt m
  apply alive m = note_alive fl m
  apply (missed now) m = note_missed_probe fl now m
  apply (in_band rate) m = observe_in_band fl rate m
  apply (raw rate) m = observe_raw fl rate m
  apply (tuned o) m = reload fl o m
  apply (ticked now) m = tick fl now m

  -- The state after a tick, as a table of the conditions.
  abbrev pub table : State → ℕ → Monitor fl → State
  table healthy now m =
      if missed_down fl now m
      then down
      else if over fl m && elapsed m.cond_since now m.degrade_aft
      then degraded
      else healthy
  table degraded now m =
      if missed_down fl now m
      then down
      else if over fl m
      then (if elapsed m.cond_since now m.degrade_aft then down else degraded)
      else if calm fl m && elapsed m.cond_since now m.recover_aft
      then healthy
      else degraded
  table down now m = if calm fl m && elapsed m.cond_since now m.recover_aft then healthy else down

  pub state-tick : (now : ℕ) (m : Monitor fl) → (tick fl now m).state ≡ table m.state now m
  unfolding tick
  state-tick now m = ground arith

  apply-is_edge : (e : Event) (m : Monitor fl) → is_edge m.state (apply e m).state ≡ true
  unfolding apply observe_sample note_alive note_missed_probe observe_in_band observe_raw reload
  apply-is_edge (sample x rtt) m = ground arith
  apply-is_edge alive m = ground arith
  apply-is_edge (missed now) m = ground arith
  apply-is_edge (in_band rate) m = ground arith
  apply-is_edge (raw rate) m = ground arith
  apply-is_edge (tuned o) m = ground arith
  apply-is_edge (ticked now) m = ground (arith, state-tick now m)

  -- Every call moves the monitor along an arrow.
  pub apply-Edge : (e : Event) (m : Monitor fl) → Edge m.state (apply e m).state
  apply-Edge e m = Edge-of m.state (apply e m).state (apply-is_edge e m)
