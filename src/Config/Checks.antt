-- ===== src/Config/Checks.antt =====
-- internal/config/config.go: what the checks of Validate share. An error returns at once, and the
-- half-defaulted document is thrown away by every caller, so that an error carries no document.
use Prim.Native.String.{String}
use text.Mathlib.Text.{◌==◌ as str_eq}
use flexbraid.Prelude.{
  ℕ, ◌≤◌, ◌≡◌, refl, Bool, true, false, ◌||◌, arith, ◌==◌, if◌then◌else◌, Bool-cases, inl, inr,
}
use flexbraid.Prelude.Int.{ℤ, pos, negsuc, lt_ℤ}
use flexbraid.Float.{Float}

-- One constructor for each `return fmt.Errorf` of Validate, in its order.
pub data Error : Type 0 where
  invalid_mode no_listen no_server no_wg_peer bad_listen bad_server bad_wg_peer : Error
  invalid_scheduler_mode invalid_affinity negative_capacity_cap : Error
  bad_gap_timeout bad_max_pending bad_mtu : Error
  invalid_fec_mode bad_data_shards crosspath_needs_packet bad_max_loss bad_adapt_min_loss : Error
  bad_adapt_resume bad_adapt_hold bad_fixed_overhead bad_protection_level : Error
  no_wans bad_server_transport : Error
  duplicate_wan invalid_wan_transport negative_capacity : String → Error
  bad_down_after_misses bad_down_grace no_key bad_interval bad_telemetry_listen bad_queue_drop :
      Error

-- What Validate makes of a part of the document.
pub data Outcome {ℓ} (A : Type ℓ) : Type ℓ where
  rejected : Error → Outcome A
  accepted : A → Outcome A

abbrev pub raise_if : Bool → Error → Outcome (Unit {0})
raise_if failed why = if failed then rejected why else accepted tt

module _ {ℓ κ} {A : Type ℓ} {B : Type κ} where
  infixl 5 ◌>>=◌
  abbrev pub ◌>>=◌ : Outcome A → (A → Outcome B) → Outcome B
  rejected why >>= next = rejected why
  accepted part >>= next = next part

infixl 5 ◌>>◌
abbrev pub ◌>>◌ {κ} : {B : Type κ} → Outcome (Unit {0}) → Outcome B → Outcome B
test >> next = test >>= λ _. next

-- A section of Validate: its unset fields are filled in and its values are tested. The source tests a
-- field only after its own default, so that all defaults can come first.
abbrev pub checked {ℓ} : {A : Type ℓ} → (A → A) → (A → Outcome (Unit {0})) → A → Outcome A
checked defaults test a = let f = defaults a in test f >> accepted f

-- `if x == "" { x = d }`, and `if x == 0 { x = d }` on int and float64.
abbrev pub text_or : String → String → String
text_or x d = if str_eq x "" then d else x

abbrev pub is_zero : ℤ → Bool
is_zero (pos n) = n == 0
is_zero (negsuc n) = false

abbrev pub int_or : ℤ → ℤ → ℤ
int_or x d = if is_zero x then d else x

-- `x < lo || x > hi` on int.
abbrev pub outside : ℕ → ℕ → ℤ → Bool
outside lo hi x = lt_ℤ x (pos lo) || lt_ℤ (pos hi) x

abbrev pub Within : ℕ → ℕ → ℤ → Type 0
Within lo hi x = (n : ℕ) × (x ≡ pos n) × (lo ≤ n) × (n ≤ hi)

module _ (fl : Float) where
  open fl use {Carrier, milli, lt, equal}

  abbrev pub float_or : Carrier → Carrier → Carrier
  float_or x d = if equal x (milli 0) then d else x

  abbrev pub float_outside : Carrier → Carrier → Carrier → Bool
  float_outside lo hi x = lt x lo || lt hi x

pub >>=-eq-accepted {ℓ κ} :
    {A : Type ℓ} {B : Type κ} (m : Outcome A) (f : A → Outcome B) {b : B}
    → (m >>= f) ≡ accepted b
    → (a : A) × (m ≡ accepted a) × (f a ≡ accepted b)
>>=-eq-accepted (accepted a) f h = (a, refl, h)
>>=-eq-accepted (rejected e) f h = cc

-- To take a bind apart with names for its parts.
pub on_accepted {ℓ κ μ} :
    {A : Type ℓ} {B : Type κ} {P : Type μ} (m : Outcome A) (f : A → Outcome B) {b : B}
    → (m >>= f) ≡ accepted b
    → ((a : A) → m ≡ accepted a → f a ≡ accepted b → P)
    → P
on_accepted (accepted a) f h k = k a refl h
on_accepted (rejected e) f h k = absurd (ground arith)

pub accepted_inj {ℓ} : {A : Type ℓ} {a b : A} → accepted a ≡ accepted b → a ≡ b
accepted_inj h = ground arith

pub raise_if-eq-accepted {ℓ} :
    {B : Type ℓ} (t : Bool) (e : Error) (k : Outcome B) {b : B}
    → (raise_if t e >> k) ≡ accepted b
    → (t ≡ false) × (k ≡ accepted b)
raise_if-eq-accepted true e k h = cc
raise_if-eq-accepted false e k h = (refl, h)

pub if_idem {ℓ} :
    {A : Type ℓ} (test : A → Bool) (x d : A)
    → let y = if test x then d else x in (if test y then d else y) ≡ y
if_idem test x d = elim (Bool-cases (test x)) [
  | inl e ↦ rw e (elim (Bool-cases (test d)) [ inl p ↦ rw p refl | inr p ↦ rw p refl ])
  | inr e ↦ rw (e, e) refl
]

pub not_outside-Within : (lo hi : ℕ) (x : ℤ) → outside lo hi x ≡ false → Within lo hi x
not_outside-Within lo hi (pos n) h = (n, refl, ground arith, ground arith)
not_outside-Within lo hi (negsuc n) h = absurd (ground arith)

module _ {ℓ} {A : Type ℓ} (defaults : A → A) (test : A → Outcome (Unit {0})) where
  pub checked-eq-accepted :
      (a b : A) → checked defaults test a ≡ accepted b → (b ≡ defaults a) × (test b ≡ accepted tt)
  checked-eq-accepted a b h =
      let (u, e, e') = >>=-eq-accepted (test (defaults a)) _ h in
      let same : b ≡ defaults a = ground arith in (same, rw (same, e) refl)

  pub checked-settles :
      ((a : A) → defaults (defaults a) ≡ defaults a)
      → (a b : A) → checked defaults test a ≡ accepted b
      → checked defaults test b ≡ accepted b
  checked-settles idem a b h =
      let (same, passed) = checked-eq-accepted a b h in
      let fixed : defaults b ≡ b = rw same (idem a) in rw (fixed, passed) refl
