-- ===== src/Scheduler/Nodes.antt =====
-- internal/scheduler/scheduler.go: every node of the ring leads to a path that it was built from.
use mathlib.Core.Path.{subst}
use flexbraid.Prelude.{
  elim-some, ℕ, zero, suc, ◌+◌, ◌%◌, ◌^◌, ◌<◌, ◌≡◌, refl, sym, ◌≢◌, ◌⊎◌, inl, inr, some, List, [],
  ◌∷◌, get_or, ltb, leb, ◌==◌, arith, All, Bool-cases,
}
use flexbraid.Float.{Float}
use flexbraid.Assoc.{Assoc, lookup, put, lookup-put}
use flexbraid.Scheduler.Hash.{fnv1a, insert, sort, node_from}
use flexbraid.Scheduler.{WanPath, Ring, no_ring, place, place_all, build_ring, id_at, ring_id}

module _ (fl : Float) where
  -- The id is that of one of the paths.
  abbrev pub IsIdOf : List (WanPath fl) → List ℕ → Type 0
  IsIdOf [] id = ⊥
  IsIdOf (p ∷ ps) id = (p.id ≡ id) ⊎ IsIdOf ps id

  abbrev pub Leads : List (WanPath fl) → Assoc (List ℕ) → ℕ → Type 0
  Leads us m n = (id : List ℕ) × (lookup n m ≡ some id) × IsIdOf us id

  Leads-put :
      (us : List (WanPath fl)) (m : Assoc (List ℕ)) (k : ℕ) (id : List ℕ) (ns : List ℕ)
      → IsIdOf us id
      → All (Leads us m) ns
      → All (Leads us (put k id m)) ns
  Leads-put us m k id [] i h = tt
  Leads-put us m k id (n ∷ ns) i h = (
    elim (Bool-cases (k == n)) [
      | inl e ↦ (id, ground (arith, lookup-put k n id m), i)
      | inr e ↦ (h.0.0, ground (arith, lookup-put k n id m, h.0.1), h.0.2)
    ],
    Leads-put us m k id ns i h.1,
  )

  place-Leads :
      (us : List (WanPath fl)) (id : List ℕ) (v n : ℕ) (r : Ring fl)
      → IsIdOf us id
      → All (Leads us r.node_ids) r.nodes
      → All (Leads us (place fl id v n r).node_ids) (place fl id v n r).nodes
  unfolding place
  place-Leads us id v zero r i h = h
  place-Leads us id v (suc n) r i h =
      place-Leads us id (v + 1) n
        (record { nodes = fnv1a id v ∷ r.nodes; node_ids = put (fnv1a id v) id r.node_ids }) i
        (
          (id, ground (arith, lookup-put (fnv1a id v) (fnv1a id v) id r.node_ids), i),
          Leads-put us r.node_ids (fnv1a id v) id r.nodes i h,
        )

  -- `qs` are among `us`.
  abbrev AreAmong : List (WanPath fl) → List (WanPath fl) → Type 0
  AreAmong us [] = Unit
  AreAmong us (q ∷ qs) = IsIdOf us q.id × AreAmong us qs

  place_all-Leads :
      (us qs : List (WanPath fl)) (r : Ring fl)
      → AreAmong us qs
      → All (Leads us r.node_ids) r.nodes
      → All (Leads us (place_all fl qs r).node_ids) (place_all fl qs r).nodes
  unfolding place_all
  place_all-Leads us [] r a h = h
  place_all-Leads us (q ∷ qs) r a h =
      place_all-Leads us qs (place fl q.id 0 64 r) a.1 (place-Leads us q.id 0 64 r a.0 h)

  AreAmong-weaken :
      (p : WanPath fl) (us qs : List (WanPath fl)) → AreAmong us qs → AreAmong (p ∷ us) qs
  AreAmong-weaken p us [] a = tt
  AreAmong-weaken p us (q ∷ qs) a = (inr a.0, AreAmong-weaken p us qs a.1)

  AreAmong-self : (us : List (WanPath fl)) → AreAmong us us
  AreAmong-self [] = tt
  AreAmong-self (p ∷ us) = (inl refl, AreAmong-weaken p us us (AreAmong-self us))

  module _ (P : ℕ → Type 0) where
    All-insert : (x : ℕ) (ns : List ℕ) → P x → All P ns → All P (insert x ns)
    unfolding insert
    All-insert x [] hx h = (hx, tt)
    All-insert x (n ∷ ns) hx h = elim (Bool-cases (ltb x n)) [
      | inl e ↦ rw (e, insert) (hx, h)
      | inr e ↦ rw (e, insert) (h.0, All-insert x ns hx h.1)
    ]

    All-sort : (ns : List ℕ) → All P ns → All P (sort ns)
    unfolding sort
    All-sort [] h = tt
    All-sort (n ∷ ns) h = All-insert n (sort ns) h.0 (All-sort ns h.1)

    node_from-All : (h first : ℕ) (ns : List ℕ) → P first → All P ns → P (node_from h first ns)
    unfolding node_from
    node_from-All h first [] f a = f
    node_from-All h first (n ∷ ns) f a = elim (Bool-cases (leb h n)) [
      | inl e ↦ rw (e, node_from) a.0
      | inr e ↦ rw (e, node_from) (node_from-All h first ns f a.1)
    ]

  -- A ring with nodes that lead to paths of `us`.
  pub record RingOf (us : List (WanPath fl)) (r : Ring fl) : Type 0 where
    pub some_node : r.nodes ≢ []
    pub leads : All (Leads us r.node_ids) r.nodes

  insert-ne_nil : (x : ℕ) (ns : List ℕ) → insert x ns ≢ []
  unfolding insert
  insert-ne_nil x [] = λ e. ground arith
  insert-ne_nil x (n ∷ ns) = elim (Bool-cases (ltb x n)) [
    | inl e ↦ rw (e, insert) (λ q. ground arith)
    | inr e ↦ rw (e, insert) (λ q. ground arith)
  ]

  sort-ne_nil : (ns : List ℕ) → ns ≢ [] → sort ns ≢ []
  unfolding sort
  sort-ne_nil [] h = absurd (h refl)
  sort-ne_nil (n ∷ ns) h = insert-ne_nil n (sort ns)

  place-ne_nil :
      (id : List ℕ) (v n : ℕ) (r : Ring fl) → r.nodes ≢ [] → (place fl id v n r).nodes ≢ []
  unfolding place
  place-ne_nil id v zero r h = h
  place-ne_nil id v (suc n) r h = place-ne_nil id (v + 1) n _ (λ e. ground arith)

  place_all-ne_nil :
      (qs : List (WanPath fl)) (r : Ring fl) → r.nodes ≢ [] → (place_all fl qs r).nodes ≢ []
  unfolding place_all
  place_all-ne_nil [] r h = h
  place_all-ne_nil (q ∷ qs) r h =
      place_all-ne_nil qs (place fl q.id 0 64 r) (place-ne_nil q.id 0 64 r h)

  place_pos : (id : List ℕ) (v n : ℕ) (r : Ring fl) → 0 < n → (place fl id v n r).nodes ≢ []
  unfolding place
  place_pos id v zero r h = absurd (omega arith)
  place_pos id v (suc n) r h = place-ne_nil id (v + 1) n _ (λ e. ground arith)

  place_all_some :
      (p : WanPath fl) (ps : List (WanPath fl)) (r : Ring fl) → (place_all fl (p ∷ ps) r).nodes ≢ []
  unfolding place_all
  place_all_some p ps r =
      place_all-ne_nil ps (place fl p.id 0 64 r) (place_pos p.id 0 64 r (omega arith))

  pub build_ring-RingOf :
      (p : WanPath fl) (ps : List (WanPath fl)) → RingOf (p ∷ ps) (build_ring fl (p ∷ ps))
  unfolding build_ring
  build_ring-RingOf p ps =
      let r = place_all fl (p ∷ ps) (no_ring fl) in
      record {
        some_node = sort-ne_nil r.nodes (place_all_some p ps (no_ring fl));
        leads =
            All-sort (Leads (p ∷ ps) r.node_ids) r.nodes
              (place_all-Leads (p ∷ ps) (p ∷ ps) (no_ring fl) (AreAmong-self (p ∷ ps)) tt);
      }

  id_at-IsIdOf :
      (us : List (WanPath fl)) (h : ℕ) (ns : List ℕ) (m : Assoc (List ℕ))
      → ns ≢ []
      → All (Leads us m) ns
      → IsIdOf us (id_at fl (node_from h (get_or ns 0 0) ns) m)
  id_at-IsIdOf us h [] m ne a = absurd (ne refl)
  id_at-IsIdOf us h (n ∷ ns) m ne a =
      let (id, e, i) = node_from-All (Leads us m) h n (n ∷ ns) a.0 a in
      subst (IsIdOf us) (sym (elim-some [] (λ v. v) e)) i

  pub ring_id-IsIdOf :
      (us : List (WanPath fl)) (h : ℕ) (r : Ring fl) → RingOf us r → IsIdOf us (ring_id fl h r)
  unfolding ring_id
  ring_id-IsIdOf us h r o = id_at-IsIdOf us (h % 2 ^ 32) r.nodes r.node_ids o.some_node o.leads
