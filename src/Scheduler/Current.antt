-- ===== src/Scheduler/Current.antt =====
-- internal/scheduler/scheduler.go: a change of the paths puts the ring out of date.
use mathlib.Core.Path.{subst}
use flexbraid.Prelude.{
  ℕ, ◌+◌, ◌^◌, ◌<◌, refl, sym, inl, inr, List, arith, Bool-cases, if-true, if-false,
}
use flexbraid.Float.{Float}
use flexbraid.Health.{State}
use flexbraid.Scheduler.{on_state, remove_path, knows, new, Options, Scheduler}
use flexbraid.Scheduler.Usable.{IsCurrent}

module _ (fl : Float) where
  new-IsCurrent : (o : Options) → IsCurrent fl (new fl o)
  unfolding new
  new-IsCurrent o = record { behind = omega arith; ring_of = inl refl }

  -- A change of a path puts the ring out of date, before the version wraps around.
  pub on_state-IsCurrent :
      (id : List ℕ) (st : State) (loss : fl.Carrier) (s : Scheduler fl)
      → s.ring_ver + 1 < 2 ^ 64
      → IsCurrent fl s
      → IsCurrent fl (on_state fl id st loss s)
  unfolding on_state
  on_state-IsCurrent id st loss s h c = elim (Bool-cases (knows fl id s.paths)) [
    | inl e ↦ subst (IsCurrent fl) (sym (if-true _ _ e)) (record {
      behind = omega (arith, c.behind);
      ring_of = inr (inl (λ q. ground (arith, c.behind)));
    })
    | inr e ↦ subst (IsCurrent fl) (sym (if-false _ _ e)) c
  ]

  pub remove_path-IsCurrent :
      (id : List ℕ) (s : Scheduler fl)
      → s.ring_ver + 1 < 2 ^ 64
      → IsCurrent fl s
      → IsCurrent fl (remove_path fl id s)
  unfolding remove_path
  remove_path-IsCurrent id s h c = elim (Bool-cases (knows fl id s.paths)) [
    | inl e ↦ subst (IsCurrent fl) (sym (if-true _ _ e)) (record {
      behind = omega (arith, c.behind);
      ring_of = inr (inl (λ q. ground (arith, c.behind)));
    })
    | inr e ↦ subst (IsCurrent fl) (sym (if-false _ _ e)) c
  ]
