-- ===== src/Assoc.antt =====
-- Go maps with integer keys as association lists. The order of the entries stands for the order in
-- which `range` visits the map, so a theorem about every list holds for every visiting order.
use mathlib.Core.Path.{subst}
use flexbraid.Prelude.{
  ℕ, suc, ◌≤◌, ◌≡◌, refl, inl, inr, Option, none, some, List, [], ◌∷◌, arith, length, All, ◌==◌,
  if◌then◌else◌, Bool-cases,
}

abbrev pub Assoc {ℓ} : Type ℓ → Type ℓ
Assoc V = List (ℕ × V)

module _ {ℓ} {V : Type ℓ} where
  -- m[k], with `none` where the key is missing
  abbrev pub lookup : ℕ → Assoc V → Option V
  lookup k [] = none
  lookup k ((j, v) ∷ m) = if j == k then some v else lookup k m

  abbrev pub lookup_or : V → ℕ → Assoc V → V
  lookup_or d k m = elim (lookup k m) [ none ↦ d | some v ↦ v ]

  -- delete(m, k)
  abbrev pub erase : ℕ → Assoc V → Assoc V
  erase k [] = []
  erase k ((j, v) ∷ m) = let rest = erase k m in if j == k then rest else (j, v) ∷ rest

  -- m[k] = v
  abbrev pub put : ℕ → V → Assoc V → Assoc V
  put k v [] = (k, v) ∷ []
  put k v ((j, w) ∷ m) = let rest = put k v m in if j == k then (k, v) ∷ m else (j, w) ∷ rest

  -- No key twice, as in every Go map.
  abbrev pub Distinct : Assoc V → Type ℓ
  Distinct [] = Unit
  Distinct ((k, v) ∷ m) = (lookup k m ≡ none) × Distinct m

  pub lookup-cons_here :
      (k j : ℕ) (v : V) (m : Assoc V) → j ≡ k → (w : V) × (lookup j ((k, v) ∷ m) ≡ some w)
  lookup-cons_here k j v m e = (v, ground arith)

  pub lookup-cons_there :
      (k j : ℕ) (v u : V) (m : Assoc V)
      → lookup j m ≡ some u
      → (w : V) × (lookup j ((k, v) ∷ m) ≡ some w)
  lookup-cons_there k j v u m e = elim (Bool-cases (k == j)) [
    | inl q ↦ (v, ground arith)
    | inr q ↦ (u, ground arith)
  ]

  pub lookup-erase :
      (k j : ℕ) (m : Assoc V) → lookup j (erase k m) ≡ (if k == j then none else lookup j m)
  lookup-erase k j [] = ground arith
  lookup-erase k j ((i, v) ∷ m) = ground (arith, lookup-erase k j m)

  pub lookup-put :
      (k j : ℕ) (v : V) (m : Assoc V)
      → lookup j (put k v m) ≡ (if k == j then some v else lookup j m)
  lookup-put k j v [] = refl
  lookup-put k j v ((i, w) ∷ m) = ground (arith, lookup-put k j v m)

  pub lookup_or-put :
      (d : V) (k j : ℕ) (v : V) (m : Assoc V)
      → lookup_or d j (put k v m) ≡ (if k == j then v else lookup_or d j m)
  lookup_or-put d k j v m = ground (arith, lookup-put k j v m)

  pub lookup_or-put_same : (d : V) (k : ℕ) (v : V) (m : Assoc V) → lookup_or d k (put k v m) ≡ v
  lookup_or-put_same d k v m = ground (arith, lookup_or-put d k k v m)

  pub erase_of_missing : (k : ℕ) (m : Assoc V) → lookup k m ≡ none → erase k m ≡ m
  erase_of_missing k [] h = refl
  erase_of_missing k ((j, v) ∷ m) h = ground (arith, erase_of_missing k m)

  pub length-put-le : (k : ℕ) (v : V) (m : Assoc V) → length (put k v m) ≤ suc (length m)
  length-put-le k v [] = omega arith
  length-put-le k v ((j, w) ∷ m) = ground (arith, length-put-le k v m)

  pub length-put_of_some :
      (k : ℕ) (v u : V) (m : Assoc V) → lookup k m ≡ some u → length (put k v m) ≡ length m
  length-put_of_some k v u [] e = absurd (ground arith)
  length-put_of_some k v u ((j, w) ∷ m) e = ground (arith, length-put_of_some k v u m)

  pub length-erase-le : (k : ℕ) (m : Assoc V) → length (erase k m) ≤ length m
  length-erase-le k [] = omega arith
  length-erase-le k ((j, v) ∷ m) = ground (arith, length-erase-le k m)

  pub length-erase_of_some :
      (k : ℕ) (m : Assoc V) (v : V) → lookup k m ≡ some v → suc (length (erase k m)) ≤ length m
  length-erase_of_some k [] v h = ground arith
  length-erase_of_some k ((j, w) ∷ m) v h =
      ground (arith, length-erase_of_some k m v, length-erase-le k m)

  pub Distinct-erase : (k : ℕ) (m : Assoc V) → Distinct m → Distinct (erase k m)
  Distinct-erase k [] d = d
  Distinct-erase k ((j, v) ∷ m) d = elim (Bool-cases (j == k)) [
    | inl e ↦ rw e (Distinct-erase k m d.1)
    | inr e ↦ rw e (ground (arith, lookup-erase k j m), Distinct-erase k m d.1)
  ]

  pub length-erase_of_Distinct :
      (k : ℕ) (m : Assoc V) (v : V)
      → Distinct m
      → lookup k m ≡ some v
      → suc (length (erase k m)) ≡ length m
  length-erase_of_Distinct k [] v d h = ground arith
  length-erase_of_Distinct k ((j, w) ∷ m) v d h = elim (Bool-cases (j == k)) [
    | inl e ↦ ground (arith, erase_of_missing k m)
    | inr e ↦ ground (arith, length-erase_of_Distinct k m v d.1)
  ]

module _ {ℓ κ} {V : Type ℓ} (P : ℕ × V → Type κ) where
  pub All-erase : (k : ℕ) (m : Assoc V) → All P m → All P (erase k m)
  All-erase k [] h = h
  All-erase k ((j, v) ∷ m) h = elim (Bool-cases (j == k)) [
    | inl e ↦ rw e (All-erase k m h.1)
    | inr e ↦ rw e (h.0, All-erase k m h.1)
  ]

  pub All-lookup : (k : ℕ) (m : Assoc V) (v : V) → All P m → lookup k m ≡ some v → P (k, v)
  All-lookup k [] v h e = absurd (ground arith)
  All-lookup k ((j, w) ∷ m) v h e = elim (Bool-cases (j == k)) [
    | inl q ↦ (let p : ◌≡◌ {A = ℕ × V} (j, w) (k, v) = ground arith in subst P p h.0)
    | inr q ↦ All-lookup k m v h.1 (ground arith)
  ]

  pub All-put : (k : ℕ) (v : V) (m : Assoc V) → P (k, v) → All P m → All P (put k v m)
  All-put k v [] p h = (p, tt)
  All-put k v ((j, w) ∷ m) p h = elim (Bool-cases (j == k)) [
    | inl e ↦ rw e (p, h.1)
    | inr e ↦ rw e (h.0, All-put k v m p h.1)
  ]
