-- ===== src/Float.antt =====
-- Go's float64, which the language here lacks: the type and the operations that the source uses, as
-- a parameter. A law of it is assumed only where a theorem names it (`SendQueue.Bucket.IsBounding`), so
-- that what is proved holds whatever is rounded.
use flexbraid.Prelude.{ℕ, ◌+◌, ◌*◌, ◌/◌, Bool, true, ◌&&◌, if◌then◌else◌}
use flexbraid.Prelude.Int.{ℤ, pos, ◌+ℤ◌, ◌-ℤ◌, lt_ℤ, le_ℤ, signed, differ, is_negative, magnitude}

pub record Float : Type 1 where
  pub Carrier : Type 0
  -- The literal n / 1000.
  pub milli : ℕ → Carrier
  pub add : Carrier → Carrier → Carrier
  pub sub : Carrier → Carrier → Carrier
  pub mul : Carrier → Carrier → Carrier
  pub div : Carrier → Carrier → Carrier
  pub lt : Carrier → Carrier → Bool
  pub le : Carrier → Carrier → Bool
  pub equal : Carrier → Carrier → Bool
  pub of_int : ℤ → Carrier
  pub to_int : Carrier → ℤ
  -- int(math.Ceil(x))
  pub ceil : Carrier → ℤ

-- An instance for tests: thousandths, with products and conversions rounded towards zero.
abbrev pub thousandths : Float
thousandths = record {
  Carrier = ℤ;
  milli = λ n. pos n;
  add = λ a b. a +ℤ b;
  sub = λ a b. a -ℤ b;
  mul = λ a b. signed (differ (is_negative a) (is_negative b)) (magnitude a * magnitude b / 1000);
  div = λ a b. signed (differ (is_negative a) (is_negative b)) (magnitude a * 1000 / magnitude b);
  lt = lt_ℤ;
  le = le_ℤ;
  equal = λ a b. le_ℤ a b && le_ℤ b a;
  of_int = λ a. signed (is_negative a) (magnitude a * 1000);
  to_int = λ a. signed (is_negative a) (magnitude a / 1000);
  ceil = λ a.
      if is_negative a then signed true (magnitude a / 1000) else pos ((magnitude a + 999) / 1000);
}
