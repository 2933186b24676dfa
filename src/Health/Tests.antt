-- ===== src/Health/Tests.antt =====
-- Runs of the monitor over thousandths, and its theorems at concrete monitors.
use flexbraid.Prelude.{ℕ, ◌+◌, ◌≤◌, ◌≡◌, refl, true, false, none, List, [], ◌∷◌, arith}
use flexbraid.Prelude.Int.{ℤ, pos}
use flexbraid.Float.{thousandths}
use flexbraid.Health.{
  healthy, degraded, down, Monitor, Options, new, tick, observe_raw, observe_sample,
  note_missed_probe, calm, over, missed_down,
}
use flexbraid.Health.Edges.{Event, sample, missed, ticked, apply}
use flexbraid.Health.Hysteresis.{
  Calmly, CalmSince, rounds, run, recovery_is_earned, spike_escalates,
}

abbrev options : Options thousandths
options = record {
  max_loss = pos 100;
  degrade_after = 30;
  recover_after = 100;
  down_after_misses = 2;
  down_grace = 0;
  loss_alpha_fast = pos 400;
  loss_alpha_slow = pos 30;
  jitter_alpha = pos 100;
}

abbrev fresh : Monitor thousandths
fresh = record {
  max_loss = pos 100;
  degrade_aft = 30;
  recover_aft = 100;
  down_aft_miss = 2;
  down_grace = 0;
  alpha_fast = pos 400;
  alpha_slow = pos 30;
  jitter_alpha = pos 100;
  loss = pos 0;
  rtt = pos 0;
  jitter = pos 0;
  state = healthy;
  misses = 0;
  miss_since = none;
  cond_since = none;
  revived = false;
  in_band_bad = 0;
}

new-options : new thousandths options ≡ fresh
unfolding new
new-options = refl

-- Two missed probes, a response, and a calm tick at 10.
abbrev events : List (Event thousandths)
events = missed 1 ∷ missed 2 ∷ sample (pos 0) (pos 5) ∷ ticked 10 ∷ []

run-events : (run thousandths events fresh []).0.state ≡ down
unfolding run apply note_missed_probe observe_sample tick
run-events = refl

back_at_110 : (apply thousandths (ticked 110) (run thousandths events fresh []).0).state ≡ healthy
unfolding run apply note_missed_probe observe_sample tick
back_at_110 = refl

recovery_is_earned_example :
    (now : ℕ) × (t : ℕ) × ◌≡◌ {A = Event thousandths} (ticked 110) (ticked now)
    × (t + (run thousandths events fresh []).0.recover_aft ≤ now)
    × (calm thousandths (run thousandths events fresh []).0 ≡ true)
    × CalmSince t (run thousandths events fresh []).1
recovery_is_earned_example =
    recovery_is_earned thousandths events (ticked 110) fresh refl run-events
      (λ e. cc (back_at_110, e))

-- Calm at the times 0, 10 and 20; a jump of the loss to 0.5 is seen at time 30.
abbrev recovering : Monitor thousandths
recovering = record fresh { state = degraded }

abbrev calm_rounds : List (ℤ × ℕ)
calm_rounds = (pos 0, 10) ∷ (pos 0, 20) ∷ []

calmly : Calmly thousandths 0 calm_rounds (tick thousandths 0 recovering)
unfolding observe_raw tick
calmly = ((refl, refl, refl, omega arith, (refl, refl, refl, omega arith, tt)))

spike_seen :
    over thousandths (
      observe_raw thousandths
        (pos 500)
        (rounds thousandths calm_rounds (tick thousandths 0 recovering)))
    ≡ true
unfolding observe_raw tick rounds
spike_seen = refl

no_miss :
    missed_down thousandths 30 (
      observe_raw thousandths
        (pos 500)
        (rounds thousandths calm_rounds (tick thousandths 0 recovering)))
    ≡ false
unfolding observe_raw tick rounds
no_miss = refl

spike_escalates_example :
    (tick thousandths 30 (
      observe_raw thousandths
        (pos 500)
        (rounds thousandths calm_rounds (tick thousandths 0 recovering)))).state
    ≡ down
spike_escalates_example =
    spike_escalates thousandths 0 30 (pos 500) calm_rounds recovering refl refl refl refl refl
      calmly spike_seen no_miss (omega arith)
