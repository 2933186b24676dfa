-- ===== src/Scheduler/Usable.antt =====
-- internal/scheduler/scheduler.go: a WAN is picked exactly if one is usable, and it is a usable one.
use mathlib.Core.Path.{subst}
use flexbraid.Prelude.{
  ℕ, ◌≤◌, ◌≡◌, refl, ap, ◌∙◌, sym, ◌≢◌, ◌⊎◌, inl, inr, Bool, true, false, ◌||◌, not, Option, none,
  some, List, [], ◌∷◌, ◌==◌, arith, All, Bool-cases, if-true, if-false,
}
use flexbraid.Float.{Float}
use flexbraid.Health.{State, healthy, degraded, down, is_down, is_healthy}
use flexbraid.Scheduler.{
  Mode, lb, standby, Affinity, packet, flow, BalanceBy, WanPath, Scheduler, build_ring, fresh_ring,
  first_healthy, usable, weight, use_up, total_weight, pick_weighted, pick_lb, pick_mode, pick_of,
  pick, is_nil,
}
use flexbraid.Scheduler.Hash.{parse_inner_hash}
use flexbraid.Scheduler.Nodes.{IsIdOf, RingOf, build_ring-RingOf, ring_id-IsIdOf}

module _ (fl : Float) where
  -- A ring that is up to date is one of the usable paths, and no version lies ahead.
  pub record IsCurrent (s : Scheduler fl) : Type 0 where
    pub behind : s.last_ring_ver ≤ s.ring_ver
    pub ring_of :
        (s.ring.nodes ≡ []) ⊎ (s.last_ring_ver ≢ s.ring_ver) ⊎ RingOf fl (usable fl s.paths) s.ring

  fresh_ring-RingOf :
      (p : WanPath fl) (ps : List (WanPath fl)) (s : Scheduler fl)
      → usable fl s.paths ≡ p ∷ ps
      → IsCurrent s
      → RingOf fl (p ∷ ps) (fresh_ring fl (p ∷ ps) s).ring × IsCurrent (fresh_ring fl (p ∷ ps) s)
  unfolding fresh_ring
  fresh_ring-RingOf p ps s e c =
      elim (Bool-cases (is_nil fl s.ring.nodes || not (s.last_ring_ver == s.ring_ver))) [
        | inl stale ↦ subst IsGood (sym (if-true _ _ stale)) (
          build_ring-RingOf fl p ps,
          record {
            behind = omega arith;
            ring_of = inr (
                inr (
                  subst (λ us. RingOf fl us (build_ring fl (p ∷ ps))) (sym e)
                    (build_ring-RingOf fl p ps)));
          },
        )
        | inr current ↦ subst IsGood (sym (if-false _ _ current)) (good_of c.ring_of current, c)
      ]
    where
      IsGood : Scheduler fl → Type 0
      IsGood t = RingOf fl (p ∷ ps) t.ring × IsCurrent t

      nil_of : (ns : List ℕ) (b : Bool) → ns ≡ [] → (is_nil fl ns || b) ≡ false → ⊥
      nil_of [] b q h = ground arith
      nil_of (n ∷ ns) b q h = ground arith

      stale_of : (x b : Bool) → (x || not b) ≡ false → b ≡ true
      stale_of true b h = absurd (ground arith)
      stale_of false true h = refl
      stale_of false false h = absurd (ground arith)

      good_of :
          (s.ring.nodes ≡ [])
            ⊎ (s.last_ring_ver ≢ s.ring_ver)
            ⊎ RingOf fl (usable fl s.paths) s.ring
          → (is_nil fl s.ring.nodes || not (s.last_ring_ver == s.ring_ver)) ≡ false
          → RingOf fl (p ∷ ps) s.ring
      good_of (inl q) h = absurd (nil_of s.ring.nodes _ q h)
      good_of (inr (inl q)) h = absurd (
          q (
            let k = stale_of (is_nil fl s.ring.nodes) (s.last_ring_ver == s.ring_ver) h in
            ground arith))
      good_of (inr (inr o)) h = subst (λ us. RingOf fl us s.ring) e o

  use_up-IsIdOf :
      (by : BalanceBy) (us qs : List (WanPath fl)) (last : List ℕ) (r : fl.Carrier)
      → IsIdOf fl us last
      → All (λ (q : WanPath fl). IsIdOf fl us q.id) qs
      → IsIdOf fl us (use_up fl by last r qs)
  unfolding use_up
  use_up-IsIdOf by us [] last r h a = h
  use_up-IsIdOf by us (q ∷ qs) last r h a =
      let r' = fl.sub r (weight fl by q) in
      elim (Bool-cases (fl.le r' (fl.milli 0))) [
        | inl e ↦ subst (IsIdOf fl us) (sym (if-true _ _ e)) a.0
        | inr e ↦
            subst (IsIdOf fl us) (sym (if-false _ _ e)) (use_up-IsIdOf by us qs q.id r' a.0 a.1)
      ]

  ids_weaken :
      (p : WanPath fl) (us qs : List (WanPath fl))
      → All (λ (q : WanPath fl). IsIdOf fl us q.id) qs
      → All (λ (q : WanPath fl). IsIdOf fl (p ∷ us) q.id) qs
  ids_weaken p us [] a = tt
  ids_weaken p us (q ∷ qs) a = (inr a.0, ids_weaken p us qs a.1)

  own_ids : (us : List (WanPath fl)) → All (λ (q : WanPath fl). IsIdOf fl us q.id) us
  own_ids [] = tt
  own_ids (p ∷ us) = (inl refl, ids_weaken p us us (own_ids us))

  pick_weighted-IsIdOf :
      (by : BalanceBy) (r : fl.Carrier) (p : WanPath fl) (ps : List (WanPath fl))
      → IsIdOf fl (p ∷ ps) (pick_weighted fl by r p ps)
  unfolding pick_weighted
  pick_weighted-IsIdOf by r p ps =
      elim (Bool-cases (fl.le (total_weight fl by (fl.milli 0) (p ∷ ps)) (fl.milli 0))) [
        | inl e ↦ subst (IsIdOf fl (p ∷ ps)) (sym (if-true _ _ e)) (inl refl)
        | inr e ↦
            subst (IsIdOf fl (p ∷ ps)) (sym (if-false _ _ e))
              (use_up-IsIdOf by (p ∷ ps) (p ∷ ps) p.id _ (inl refl) (own_ids (p ∷ ps)))
      ]

  first_healthy-IsIdOf :
      (us qs : List (WanPath fl)) (d : List ℕ)
      → IsIdOf fl us d
      → All (λ (q : WanPath fl). IsIdOf fl us q.id) qs
      → IsIdOf fl us (first_healthy fl d qs)
  first_healthy-IsIdOf us [] d h a = h
  first_healthy-IsIdOf us (q ∷ qs) d h a = elim (Bool-cases (is_healthy q.state)) [
    | inl e ↦ subst (IsIdOf fl us) (sym (if-true _ _ e)) a.0
    | inr e ↦ subst (IsIdOf fl us) (sym (if-false _ _ e)) (first_healthy-IsIdOf us qs d h a.1)
  ]

  -- The id of a path that is not down.
  abbrev pub IsUp : List (WanPath fl) → List ℕ → Type 0
  IsUp [] id = ⊥
  IsUp (p ∷ ps) id = ((p.id ≡ id) × (p.state ≢ down)) ⊎ IsUp ps id

  -- What Pick may answer: no path where all are down, and the id of one that is not otherwise.
  abbrev pub IsAnswer : List (WanPath fl) → Option (List ℕ) → Type 0
  IsAnswer ps none = All (λ (p : WanPath fl). p.state ≡ down) ps
  IsAnswer ps (some id) = IsUp ps id

  down_of : (st : State) → is_down st ≡ true → st ≡ down
  down_of down e = refl
  down_of healthy e = absurd (ground arith)
  down_of degraded e = absurd (ground arith)

  up_of : (st : State) → is_down st ≡ false → st ≢ down
  up_of st e = λ q. ground (arith, e, q)

  usable-down :
      (ps : List (WanPath fl)) → usable fl ps ≡ [] → All (λ (p : WanPath fl). p.state ≡ down) ps
  unfolding usable
  usable-down [] e = tt
  usable-down (p ∷ ps) e = elim (Bool-cases (is_down p.state)) [
    | inl d ↦ (down_of p.state d, usable-down ps (sym (if-true _ _ d) ∙ e))
    | inr u ↦ absurd (cons_nil p (usable fl ps) (sym (if-false _ _ u) ∙ e))
  ]
    where
      cons_nil :
          (q : WanPath fl) (qs : List (WanPath fl)) → ◌≡◌ {A = List (WanPath fl)} (q ∷ qs) [] → ⊥
      cons_nil q qs h = ground arith

  usable-IsUp : (ps : List (WanPath fl)) (id : List ℕ) → IsIdOf fl (usable fl ps) id → IsUp ps id
  unfolding usable
  usable-IsUp [] id h = h
  usable-IsUp (p ∷ ps) id h = elim (Bool-cases (is_down p.state)) [
    | inl d ↦ inr (usable-IsUp ps id (subst (λ us. IsIdOf fl us id) (if-true _ _ d) h))
    | inr u ↦ elim (subst (λ us. IsIdOf fl us id) (if-false _ _ u) h) [
      | inl e ↦ inl (e, up_of p.state u)
      | inr r ↦ inr (usable-IsUp ps id r)
    ]
  ]

  pick_lb-IsIdOf :
      (a : Affinity) (h : Option ℕ) (random : fl.Carrier) (p : WanPath fl) (ps : List (WanPath fl))
      (s : Scheduler fl)
      → usable fl s.paths ≡ p ∷ ps
      → IsCurrent s
      → IsIdOf fl (p ∷ ps) (pick_lb fl a h random p ps s).0
        × IsCurrent (pick_lb fl a h random p ps s).1
  pick_lb-IsIdOf flow (some h) random p ps s e c =
      let (o, c') = fresh_ring-RingOf p ps s e c in
      (ring_id-IsIdOf fl (p ∷ ps) h (fresh_ring fl (p ∷ ps) s).ring o, c')
  pick_lb-IsIdOf flow none random p ps s e c =
      (pick_weighted-IsIdOf s.opts.balance_by random p ps, c)
  pick_lb-IsIdOf packet o random p ps s e c =
      (pick_weighted-IsIdOf s.opts.balance_by random p ps, c)

  pick_mode-IsIdOf :
      (m : Mode) (payload : List ℕ) (random : fl.Carrier) (p : WanPath fl) (ps : List (WanPath fl))
      (s : Scheduler fl)
      → usable fl s.paths ≡ p ∷ ps
      → IsCurrent s
      → IsIdOf fl (p ∷ ps) (pick_mode fl m payload random p ps s).0
        × IsCurrent (pick_mode fl m payload random p ps s).1
  pick_mode-IsIdOf standby payload random p ps s e c =
      (first_healthy-IsIdOf (p ∷ ps) (p ∷ ps) p.id (inl refl) (own_ids (p ∷ ps)), c)
  pick_mode-IsIdOf lb payload random p ps s e c =
      pick_lb-IsIdOf s.opts.affinity (parse_inner_hash payload) random p ps s e c

  -- In every mode, with any payload and any random number: Pick answers with no path exactly if all are
  -- down, and otherwise with the id of a path that is not; a ring that was built before is used only
  -- while it is that of the usable paths.
  pub pick-IsAnswer :
      (payload : List ℕ) (random : fl.Carrier) (s : Scheduler fl)
      → IsCurrent s
      → IsAnswer s.paths (pick fl payload random s).0 × IsCurrent (pick fl payload random s).1
  unfolding pick
  pick-IsAnswer payload random s c = go (usable fl s.paths) refl
    where
      go :
          (us : List (WanPath fl))
          → usable fl s.paths ≡ us
          → IsAnswer s.paths (pick_of fl payload random us s).0
            × IsCurrent (pick_of fl payload random us s).1
      go [] e = (usable-down s.paths e, c)
      go (p ∷ ps) e =
          let id = (pick_mode fl s.opts.mode payload random p ps s).0 in
          let (i, c') = pick_mode-IsIdOf s.opts.mode payload random p ps s e c in
          (usable-IsUp s.paths id (subst (λ us. IsIdOf fl us id) (sym e) i), c')

  -- In standby mode the first healthy path in the order of the configuration is picked, and the first
  -- degraded one only where none is healthy.
  pub pick_standby :
      (payload : List ℕ) (random : fl.Carrier) (s : Scheduler fl) (p : WanPath fl)
      (ps : List (WanPath fl))
      → s.opts.mode ≡ standby
      → usable fl s.paths ≡ p ∷ ps
      → pick fl payload random s ≡ (some (first_healthy fl p.id (p ∷ ps)), s)
  unfolding pick
  pick_standby payload random s p ps m e =
      ap (λ us. pick_of fl payload random us s) e
      ∙ ap
          (λ md. (
            some (pick_mode fl md payload random p ps s).0,
            (pick_mode fl md payload random p ps s).1,
          ))
          m
