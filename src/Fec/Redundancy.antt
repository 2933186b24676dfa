-- ===== src/Fec/Redundancy.antt =====
-- internal/fec/fec.go: how many parity shards a block gets.
use flexbraid.Prelude.{
  ℕ, ◌+◌, ◌-◌, ◌≤◌, ◌<◌, ◌≡◌, true, false, not, ◌&&◌, Option, none, some, arith, ltb, ◌==◌,
  if◌then◌else◌, min, ◌⊎◌,
}
use flexbraid.Prelude.Int.{ℤ, pos, negsuc}
use flexbraid.Float.{Float}
use flexbraid.Fec.{AdaptiveParams, Params, enabled}

-- `if parity < 1 { parity = 1 }`
abbrev pub at_least_one : ℤ → ℕ
at_least_one (pos n) = if n == 0 then 1 else n
at_least_one (negsuc n) = 1

module _ (fl : Float) where
  open fl use {Carrier, milli, add, sub, mul, div, lt, of_int, ceil}

  -- The redundancy L/(1-L) with the safety margin, under the ceiling.
  unfoldable pub target : Carrier → Option (AdaptiveParams fl) → Carrier
  target loss none = milli 0
  target loss (some a) =
      let wanted = mul (div loss (sub (milli 1000) loss)) a.safety in
      let cap_loss = div a.max_loss_pct (milli 100_000) in
      let most = div cap_loss (sub (milli 1000) cap_loss) in if lt most wanted then most else wanted

  -- For more than 256 data shards Go's difference `256 - k` is negative; here it is 0.
  unfoldable pub parity_for_loss : Carrier → Params fl → ℕ
  parity_for_loss loss p =
      let k = p.data_shards in
      let sized = at_least_one (ceil (mul (of_int (pos k)) (target loss p.adaptive))) in
      let raised = if ltb sized p.cross_path_min_parity then p.cross_path_min_parity else sized in
      let field = if ltb 256 (k + raised) then 256 - k else raised in
      if not p.cross_path && ltb p.parity_shards field then p.parity_shards else field

  pub at_least_one-pos : (n : ℤ) → 0 < at_least_one n
  at_least_one-pos (pos n) = ground arith
  at_least_one-pos (negsuc n) = omega arith

  -- Whatever the loss, and whatever is rounded: a block of an enabled codec gets at least one parity
  -- shard, its shards fit the field of 256, it stays within the configured ceiling unless it is
  -- coded across paths, and there it has the floor as far as the field allows.
  pub parity_bounds :
      (loss : Carrier) (p : Params fl)
      → p.data_shards < 256
      → enabled fl p ≡ true
      → (0 < parity_for_loss loss p)
        × (p.data_shards + parity_for_loss loss p ≤ 256)
        × ((p.cross_path ≡ true) ⊎ (parity_for_loss loss p ≤ p.parity_shards))
        × ((p.cross_path ≡ false)
            ⊎ (min p.cross_path_min_parity (256 - p.data_shards) ≤ parity_for_loss loss p))
  unfolding parity_for_loss enabled
  parity_bounds loss p small on =
      let k = ceil (mul (of_int (pos p.data_shards)) (target loss p.adaptive)) in
      ground (arith, at_least_one-pos k)
