-- ===== src/Config/Uplinks.antt =====
-- internal/config/config.go: the loop of Validate over the WANs.
use Prim.Native.String.{String, ◌++◌}
use text.Mathlib.Text.{◌==◌ as str_eq}
use flexbraid.Prelude.{
  ℕ, zero, suc, ◌+◌, ◌/◌, ◌%◌, Bool, false, not, ◌||◌, List, [], ◌∷◌, ltb, get_or, if◌then◌else◌,
}
use flexbraid.Prelude.Int.{is_negative}
use flexbraid.Float.{Float}
use flexbraid.Config.{Wan}
use flexbraid.Config.Checks.{
  Outcome, accepted, ◌>>=◌, ◌>>◌, raise_if, checked, text_or, float_or, duplicate_wan,
  invalid_wan_transport, negative_capacity,
}

abbrev pub digit : ℕ → String
digit n = get_or ("0" ∷ "1" ∷ "2" ∷ "3" ∷ "4" ∷ "5" ∷ "6" ∷ "7" ∷ "8" ∷ "9" ∷ []) n ""

-- strconv.Itoa for a natural number; each round takes a digit, so that the number itself is fuel
-- enough.
unfoldable pub digits : ℕ → ℕ → String
digits zero n = digit n
digits (suc fuel) n =
    let front = digits fuel (n / 10) in if ltb n 10 then digit n else front ++ digit (n % 10)

abbrev pub itoa : ℕ → String
itoa n = digits n n

abbrev pub is_transport : String → Bool
is_transport t = str_eq t "udp" || str_eq t "faketcp" || str_eq t "icmp"

abbrev pub mem : String → List String → Bool
mem s [] = false
mem s (x ∷ xs) = str_eq x s || mem s xs

module _ (fl : Float) where
  open fl use {Carrier, milli}

  -- The values of the WAN at index `i` once its unset fields are filled in.
  unfoldable pub with_wan_defaults : ℕ → Wan fl → Wan fl
  with_wan_defaults i w = record w {
    id = text_or w.id ("wan" ++ itoa (i + 1));
    transport = text_or w.transport "udp";
    weight = float_or fl w.weight (milli 1000);
  }

  unfoldable pub wan_tests : List String → Wan fl → Outcome (Unit {0})
  wan_tests seen w = do
    raise_if (mem w.id seen) (duplicate_wan w.id)
    raise_if (not (is_transport w.transport)) (invalid_wan_transport w.id)
    raise_if (is_negative w.capacity_mbps) (negative_capacity w.id)

  abbrev pub check_wan : ℕ → List String → Wan fl → Outcome (Wan fl)
  check_wan i seen = checked (with_wan_defaults i) (wan_tests seen)

  unfoldable pub check_wans : ℕ → List String → List (Wan fl) → Outcome (List (Wan fl))
  check_wans i seen [] = accepted []
  check_wans i seen (w ∷ ws) = do
    w' ← check_wan i seen w
    rest ← check_wans (i + 1) (w'.id ∷ seen) ws
    accepted (w' ∷ rest)
