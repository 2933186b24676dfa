-- ===== src/Prelude/Tests.antt =====
-- Boolean tests on the native numbers, and the conditional.
use Prim.Native.Nat.{ℕ, compare, Ordering}
use mathlib.Core.Path.{◌≡◌, refl}
use mathlib.Core.Logic.{◌↔◌, ◌⊎◌, inl, inr}
use mathlib.Core.Bool.{Bool, true, false}
use mathlib.Core.Option.{Option, none, some}
use native.Mathlib.Omega.{arith}

-- These compute to `compare`, which `ground` and `grind` read with no lemma listed.
abbrev pub ltb : ℕ → ℕ → Bool
ltb a b = elim (compare a b) [ Ordering.lt ↦ true | _ ↦ false ]

abbrev pub leb : ℕ → ℕ → Bool
leb a b = elim (compare a b) [ Ordering.gt ↦ false | _ ↦ true ]

infix 50 ◌==◌
abbrev pub ◌==◌ : ℕ → ℕ → Bool
a == b = elim (compare a b) [ Ordering.eq ↦ true | _ ↦ false ]

infix 1 if◌then◌else◌
abbrev pub if◌then◌else◌ {ℓ} : {A : Type ℓ} → Bool → A → A → A
if true then x else y = x
if false then x else y = y

-- The value of a test once its condition is known; `rw` would also rewrite inside a record.
module _ {κ} {B : Type κ} where
  pub if-true : {b : Bool} (x y : B) → b ≡ true → (if b then x else y) ≡ x
  if-true x y e = rw e refl

  pub if-false : {b : Bool} (x y : B) → b ≡ false → (if b then x else y) ≡ y
  if-false x y e = rw e refl

module _ {ℓ κ} {A : Type ℓ} {B : Type κ} where
  pub elim-none :
      {o : Option A} (x : B) (f : A → B)
      → o ≡ none
      → (elim o as (λ q. B) [ none ↦ x | some a ↦ f a ]) ≡ x
  elim-none x f e = rw e refl

  pub elim-some :
      {o : Option A} (x : B) (f : A → B) {a : A}
      → o ≡ some a
      → (elim o as (λ q. B) [ none ↦ x | some v ↦ f v ]) ≡ f a
  elim-some x f e = rw e refl

-- A computation by cases of the test or the option that it branches on.
pub by_option {ℓ κ μ} :
    {A : Type ℓ} {B : Type κ} (P : B → Type μ) (o : Option A) (x : B) (f : A → B)
    → (o ≡ none → P x)
    → ((a : A) → o ≡ some a → P (f a))
    → P (elim o as (λ _. B) [ none ↦ x | some a ↦ f a ])
by_option P none x f missing there = missing refl
by_option P (some a) x f missing there = there a refl

pub by_test {κ μ} :
    {B : Type κ} (P : B → Type μ) (b : Bool) (x y : B)
    → (b ≡ true → P x)
    → (b ≡ false → P y)
    → P (if b then x else y)
by_test P true x y here there = here refl
by_test P false x y here there = there refl

pub Bool-absurd : {b : Bool} → b ≡ true → b ≡ false → ⊥
Bool-absurd p q = ground arith

pub ==_refl : (a : ℕ) → (a == a) ≡ true
==_refl a = ground arith

pub ==_iff : (a b : ℕ) → ((a == b) ≡ true) ↔ (a ≡ b)
==_iff a b = ground arith

-- To split on a computed value and keep the equation.
pub Bool-cases : (b : Bool) → (b ≡ true) ⊎ (b ≡ false)
Bool-cases true = inl refl
Bool-cases false = inr refl

pub Option-cases {ℓ} : {A : Type ℓ} (o : Option A) → (o ≡ none) ⊎ ((a : A) × (o ≡ some a))
Option-cases none = inl refl
Option-cases (some a) = inr (a, refl)
