-- ===== src/Health/Hysteresis.antt =====
-- internal/health/health.go: how long a condition must last before the state changes.
use flexbraid.Prelude.{
  ◌<◌, ℕ, ◌+◌, ◌≤◌, ◌≡◌, refl, ◌≢◌, Bool, true, false, ◌⊎◌, inl, inr, none, some, List, [], ◌∷◌,
  arith, Option-cases,
}
use flexbraid.Float.{Float}
use flexbraid.Health.{
  healthy, degraded, down, Monitor, reload, note_alive, observe_sample, note_missed_probe,
  observe_in_band, observe_raw, missed_down, over, calm, tick,
}
use flexbraid.Health.Edges.{
  Event, sample, alive, missed, in_band, raw, tuned, ticked, apply, state-tick,
}

-- One entry for each tick, the latest first: its time and whether the loss was below half the
-- bound.
abbrev pub Log : Type 0
Log = List (ℕ × Bool)

-- The log goes back to a tick at `t`, and the loss was low at it and at every tick since.
abbrev pub CalmSince : ℕ → Log → Type 0
CalmSince t [] = ⊥
CalmSince t ((u, c) ∷ log) = (c ≡ true) × ((u ≡ t) ⊎ CalmSince t log)

module _ (fl : Float) where
  open fl use {Carrier}

  abbrev pub note : Event fl → Monitor fl → Log → Log
  note (ticked now) m log = (now, calm fl m) ∷ log
  note e m log = log

  -- The monitor and its log after some calls.
  unfoldable pub run : List (Event fl) → Monitor fl → Log → Monitor fl × Log
  run [] m log = (m, log)
  run (e ∷ es) m log = run es (apply fl e m) (note e m log)

  -- While the path is down a running timer was started by a tick since which the loss was low.
  pub IsLogged : Monitor fl → Log → Type 0
  IsLogged m log = m.state ≡ down → (t : ℕ) → m.cond_since ≡ some t → CalmSince t log

  -- A call that leaves the timer of a path that is down running, at `t`.
  abbrev Kept : Event fl → Monitor fl → ℕ → Type 0
  Kept e m t = (m.state ≡ down) × (m.cond_since ≡ some t)

  abbrev Started : Event fl → Monitor fl → ℕ → Type 0
  Started (ticked now) m t = (calm fl m ≡ true) × ((now ≡ t) ⊎ Kept (ticked now) m t)
  Started e m t = Kept e m t

  timer-Started :
      (e : Event fl) (m : Monitor fl) (t : ℕ)
      → (apply fl e m).state ≡ down
      → (apply fl e m).cond_since ≡ some t
      → Started e m t
  unfolding apply observe_sample note_alive note_missed_probe observe_in_band observe_raw reload
      tick
  timer-Started (sample x rtt) m t d c = ground arith
  timer-Started alive m t d c = ground arith
  timer-Started (missed now) m t d c = ground arith
  timer-Started (in_band rate) m t d c = ground arith
  timer-Started (raw rate) m t d c = ground arith
  timer-Started (tuned o) m t d c = ground arith
  timer-Started (ticked now) m t d c = ground arith

  note-CalmSince :
      (e : Event fl) (m : Monitor fl) (log : Log) (t : ℕ)
      → IsLogged m log
      → Started e m t
      → CalmSince t (note e m log)
  unfolding IsLogged
  note-CalmSince (ticked now) m log t h (c, inl e) = (c, inl e)
  note-CalmSince (ticked now) m log t h (c, inr k) = (c, inr (h k.0 t k.1))
  note-CalmSince (sample x rtt) m log t h k = h k.0 t k.1
  note-CalmSince alive m log t h k = h k.0 t k.1
  note-CalmSince (missed now) m log t h k = h k.0 t k.1
  note-CalmSince (in_band rate) m log t h k = h k.0 t k.1
  note-CalmSince (raw rate) m log t h k = h k.0 t k.1
  note-CalmSince (tuned o) m log t h k = h k.0 t k.1

  run-IsLogged :
      (es : List (Event fl)) (m : Monitor fl) (log : Log)
      → IsLogged m log
      → IsLogged (run es m log).0 (run es m log).1
  unfolding run
  run-IsLogged [] m log h = h
  run-IsLogged (e ∷ es) m log h =
      run-IsLogged es (apply fl e m) (note e m log)
        (unfold IsLogged in λ d t c. note-CalmSince e m log t h (timer-Started e m t d c))

  leaves_down :
      (e : Event fl) (m : Monitor fl)
      → m.state ≡ down
      → (apply fl e m).state ≢ down
      → (now : ℕ) × (t : ℕ) × (e ≡ ticked now)
        × (m.cond_since ≡ some t)
        × (t + m.recover_aft ≤ now)
        × (calm fl m ≡ true)
  unfolding apply observe_sample note_alive note_missed_probe observe_in_band observe_raw reload
  leaves_down (sample x rtt) m d up = absurd (up (ground arith))
  leaves_down alive m d up = absurd (up (ground arith))
  leaves_down (missed now) m d up = absurd (up (ground arith))
  leaves_down (in_band rate) m d up = absurd (up (ground arith))
  leaves_down (raw rate) m d up = absurd (up (ground arith))
  leaves_down (tuned o) m d up = absurd (up (ground arith))
  leaves_down (ticked now) m d up = elim (Option-cases m.cond_since) [
    | inl e ↦ absurd (up (ground (arith, state-tick fl now m)))
    | inr (t, e) ↦
        (now, t, refl, e, ground (arith, state-tick fl now m), ground (arith, state-tick fl now m))
  ]

  -- A path that is down comes back by a tick alone, and only after a calm period: there was a tick
  -- at least `recover_aft` earlier since which, at every tick, the loss was below half the bound.
  -- The condition is that the run starts with no timer, as `new` builds a monitor.
  pub recovery_is_earned :
      (es : List (Event fl)) (e : Event fl) (m : Monitor fl)
      → m.cond_since ≡ none
      → (run es m []).0.state ≡ down
      → (apply fl e (run es m []).0).state ≢ down
      → (now : ℕ) × (t : ℕ) × (e ≡ ticked now)
        × (t + (run es m []).0.recover_aft ≤ now)
        × (calm fl (run es m []).0 ≡ true)
        × CalmSince t (run es m []).1
  unfolding IsLogged
  recovery_is_earned es e m fresh d up =
      let (now, t, tick_now, since, due, low) = leaves_down e (run es m []).0 d up in
      let logged = run-IsLogged es m [] (λ q t c. absurd (ground arith)) in
      (now, t, tick_now, due, low, logged d t since)

  -- Two bad in-band windows in a row take a healthy path out of rotation at once.
  pub in_band_trips :
      (r s : Carrier) (m : Monitor fl)
      → m.state ≡ healthy
      → fl.lt m.max_loss r ≡ true
      → fl.lt m.max_loss s ≡ true
      → (observe_in_band fl s (observe_in_band fl r m)).state ≡ degraded
  unfolding observe_in_band
  in_band_trips r s m h a b = ground arith

  -- Rounds of the loop: a raw observation of the loss, then a tick.
  unfoldable pub rounds : List (Carrier × ℕ) → Monitor fl → Monitor fl
  rounds [] m = m
  rounds ((rate, now) ∷ rs) m = rounds rs (tick fl now (observe_raw fl rate m))

  -- Every tick of the rounds sees a low loss and no lack of probes, before the recovery is due.
  abbrev pub Calmly : ℕ → List (Carrier × ℕ) → Monitor fl → Type 0
  Calmly t [] m = Unit
  Calmly t ((rate, now) ∷ rs) m =
      let m' = observe_raw fl rate m in
      (missed_down fl now m' ≡ false)
      × (over fl m' ≡ false)
      × (calm fl m' ≡ true)
      × (now < t + m.recover_aft)
      × Calmly t rs (tick fl now m')

  -- The timer that started at `t` still runs.
  record Recovering (t escalate : ℕ) (m : Monitor fl) : Type 0 where
    state : m.state ≡ degraded
    since : m.cond_since ≡ some t
    patience : m.degrade_aft ≡ escalate

  calm_round :
      (t escalate now : ℕ) (rate : Carrier) (m : Monitor fl)
      → Recovering t escalate m
      → missed_down fl now (observe_raw fl rate m) ≡ false
      → over fl (observe_raw fl rate m) ≡ false
      → calm fl (observe_raw fl rate m) ≡ true
      → now < t + m.recover_aft
      → Recovering t escalate (tick fl now (observe_raw fl rate m))
  unfolding tick observe_raw
  calm_round t escalate now rate m r a b c early =
      let d = r.state in
      let s = r.since in
      let p = r.patience in
      record { state = ground arith; since = ground arith; patience = ground arith }

  rounds-Recovering :
      (t escalate : ℕ) (rs : List (Carrier × ℕ)) (m : Monitor fl)
      → Recovering t escalate m
      → Calmly t rs m
      → Recovering t escalate (rounds rs m)
  unfolding rounds
  rounds-Recovering t escalate [] m r q = r
  rounds-Recovering t escalate ((rate, now) ∷ rs) m r q =
      rounds-Recovering t escalate rs (tick fl now (observe_raw fl rate m))
        (calm_round t escalate now rate m r q.0 q.1 q.2 q.3) q.4

  calm_start :
      (t : ℕ) (m : Monitor fl)
      → m.state ≡ degraded
      → m.cond_since ≡ none
      → missed_down fl t m ≡ false
      → over fl m ≡ false
      → calm fl m ≡ true
      → Recovering t m.degrade_aft (tick fl t m)
  unfolding tick
  calm_start t m d none_ a b c = record {
    state = ground arith;
    since = ground arith;
    patience = ground arith;
  }

  bad_tick :
      (t escalate now : ℕ) (rate : Carrier) (m : Monitor fl)
      → Recovering t escalate m
      → over fl (observe_raw fl rate m) ≡ true
      → missed_down fl now (observe_raw fl rate m) ≡ false
      → t + escalate ≤ now
      → (tick fl now (observe_raw fl rate m)).state ≡ down
  unfolding tick observe_raw
  bad_tick t escalate now rate m r bad k due =
      let d = r.state in let s = r.since in let p = r.patience in ground arith

  -- The timer of a degraded path serves both conditions: a tick at `t` with low loss starts it for the
  -- recovery. After any rounds whose ticks all see a low loss, before the recovery is due, the path
  -- goes down at the first tick that sees the loss over the bound, if it comes `degrade_aft` after `t`
  -- or later. No tick finds the path down by its misses.
  pub spike_escalates :
      (t now : ℕ) (rate : Carrier) (rs : List (Carrier × ℕ)) (m : Monitor fl)
      → m.state ≡ degraded
      → m.cond_since ≡ none
      → missed_down fl t m ≡ false
      → over fl m ≡ false
      → calm fl m ≡ true
      → Calmly t rs (tick fl t m)
      → over fl (observe_raw fl rate (rounds rs (tick fl t m))) ≡ true
      → missed_down fl now (observe_raw fl rate (rounds rs (tick fl t m))) ≡ false
      → t + m.degrade_aft ≤ now
      → (tick fl now (observe_raw fl rate (rounds rs (tick fl t m)))).state ≡ down
  spike_escalates t now rate rs m d none_ a b c calmly bad k due =
      let started = calm_start t m d none_ a b c in
      bad_tick t m.degrade_aft now rate (rounds rs (tick fl t m))
        (rounds-Recovering t m.degrade_aft rs (tick fl t m) started calmly) bad k due
