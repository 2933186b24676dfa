-- ===== src/Tunnel/Fits.antt =====
-- internal/tunnel/tunnel.go, internal/config/config.go: the codecs of a configuration stay within the
-- field of the erasure code and the path MTU.
use mathlib.Core.Path.{subst}
use Prim.Native.String.{String}
use flexbraid.Prelude.{
  ℕ, ◌+◌, ◌*◌, ◌≤◌, ◌<◌, ◌≡◌, ◌⊎◌, inl, inr, true, false, Option, none, some, arith, ltb,
  Bool-cases, Bool-absurd, if-false, sym, ◌∙◌,
}
use flexbraid.Prelude.Int.{ℤ, pos, pos_part, lt_ℤ, ◌-ℤ◌}
use flexbraid.Float.{Float}
use flexbraid.Frame.{header_size, tag_size}
use flexbraid.Fec.{Params, enabled, parity_header_size}
use flexbraid.Fec.Redundancy.{parity_for_loss, parity_bounds, at_least_one-pos}
use flexbraid.Config.{Config, Fec, Wan}
use flexbraid.Config.Checks.{accepted}
use flexbraid.Config.Validate.{Net, validate}
use flexbraid.Config.Ranges.{validate-IsValid, IsFec}
use flexbraid.Tunnel.Params.{
  derived, fit, fec_params_for, crosspath_params, shards_or_default, path_mtu, coded, ceiling,
  adaptive_params,
}

module _ (fl : Float) where
  open fl use {Carrier, milli, sub, mul, div, of_int, ceil}

  -- The shards of a block fit the field of 256, and the largest frame of a datagram of at most `n`
  -- bytes fits the path.
  pub record Fits (n : ℕ) (p : Params fl) : Type 0 where
    pub some_parity : 0 < p.parity_shards
    pub in_field : p.data_shards + p.parity_shards ≤ 256
    pub on_path : header_size + tag_size + parity_header_size p.data_shards + n ≤ path_mtu

  pub derived_inj : {p q : Params fl} → derived p ≡ derived q → p ≡ q
  derived_inj h = ground arith

  fit-Fits :
      (n : ℕ) (q p : Params fl) → 0 < q.parity_shards → fit fl (pos n) q ≡ derived p → Fits n p
  unfolding fit
  fit-Fits n q p some_parity h =
      let headroom = header_size + tag_size + parity_header_size q.data_shards in
      elim (Bool-cases (ltb 256 (q.data_shards + q.parity_shards))) as (λ _. Fits n p) [
        | inl e ↦ absurd (ground arith)
        | inr e ↦
            elim (Bool-cases (lt_ℤ (pos path_mtu -ℤ pos headroom) (pos n))) as (λ _. Fits n p) [
              | inl e' ↦ absurd (ground arith)
              | inr e' ↦
                  (let h' : derived q ≡ derived p =
                      sym (if-false _ _ e') ∙ sym (if-false _ _ e) ∙ h in
                    subst (Fits n) (derived_inj h') (record {
                      some_parity = some_parity;
                      in_field = ground arith;
                      on_path = ground arith;
                    }))
            ]
      ]

  pub fec_params_for-Fits :
      (f : Fec fl) (n : ℕ) (wan : Option (Wan fl)) (p : Params fl)
      → fec_params_for fl f (pos n) wan ≡ derived p
      → (enabled fl p ≡ false) ⊎ (p.cross_path ≡ true) ⊎ Fits n p
  unfolding fec_params_for crosspath_params enabled
  fec_params_for-Fits f n wan p h =
      let timeout = pos_part f.block_timeout_ms * 1_000_000 in
      let k = shards_or_default f.data_shards in
      let shards = of_int (pos k) in
      let l = div (ceiling fl f wan) (milli 100_000) in
      let fixed = ceil (div (mul shards f.fixed_overhead_pct) (milli 100_000)) in
      let adaptive = ceil (div (mul shards l) (sub (milli 1000) l)) in
      ground (
        arith,
        fit-Fits n (coded fl k fixed timeout none) p (at_least_one-pos fl fixed),
        fit-Fits n (coded fl k adaptive timeout (some (adaptive_params fl f))) p
            (at_least_one-pos fl adaptive),
      )

  fit-derived : (mtu : ℤ) (q p : Params fl) → fit fl mtu q ≡ derived p → q ≡ p
  unfolding fit
  fit-derived mtu q p h = ground arith

  -- An enabled codec comes from an enabled section and has its data shards.
  fec_params_for-shards :
      (f : Fec fl) (mtu : ℤ) (wan : Option (Wan fl)) (p : Params fl)
      → fec_params_for fl f mtu wan ≡ derived p
      → enabled fl p ≡ true
      → (f.enabled ≡ true) × (p.data_shards ≡ shards_or_default f.data_shards)
  unfolding fec_params_for crosspath_params enabled
  fec_params_for-shards f mtu wan p h on =
      let timeout = pos_part f.block_timeout_ms * 1_000_000 in
      let k = shards_or_default f.data_shards in
      let shards = of_int (pos k) in
      let l = div (ceiling fl f wan) (milli 100_000) in
      let fixed = ceil (div (mul shards f.fixed_overhead_pct) (milli 100_000)) in
      let adaptive = ceil (div (mul shards l) (sub (milli 1000) l)) in
      ground (
        arith,
        fit-derived mtu (coded fl k fixed timeout none) p,
        fit-derived mtu (coded fl k adaptive timeout (some (adaptive_params fl f))) p,
      )

  enabled_shards :
      (affinity : String) (f : Fec fl)
      → IsFec fl affinity f
      → f.enabled ≡ true
      → (2 ≤ shards_or_default f.data_shards) × (shards_or_default f.data_shards ≤ 64)
  enabled_shards affinity f (inl off) on = absurd (Bool-absurd on off)
  enabled_shards affinity f (inr coding) on =
      let (n, e, least, most) = coding.data_shards in rw e (ground arith, ground arith)

  -- The codec that a validated document gives a WAN has 2 to 64 data shards. Whatever loss it is fed,
  -- and whatever is rounded, it adds parity and stays within the field of 256 shards, and the
  -- largest frame of a datagram within the MTU fits a path of 1500 bytes, unless it codes across
  -- paths.
  pub validated_codec :
      (net : Net) (c v : Config fl) (wan : Option (Wan fl)) (p : Params fl) (loss : Carrier)
      → validate fl net c ≡ accepted v
      → fec_params_for fl v.fec v.mtu wan ≡ derived p
      → enabled fl p ≡ true
      → (2 ≤ p.data_shards)
        × (p.data_shards ≤ 64)
        × (0 < parity_for_loss fl loss p)
        × (p.data_shards + parity_for_loss fl loss p ≤ 256)
        × ((p.cross_path ≡ true) ⊎ ((n : ℕ) × (v.mtu ≡ pos n) × Fits n p))
  validated_codec net c v wan p loss h d on =
      let valid = validate-IsValid fl net c v h in
      let (f_on, same) = fec_params_for-shards v.fec v.mtu wan p d on in
      let (least, most) = enabled_shards v.scheduler.affinity v.fec valid.fec f_on in
      let (some_parity, in_field, _, _) = parity_bounds fl loss p (omega arith) on in
      let (n, e, _, _) = valid.mtu in
      let d' : fec_params_for fl v.fec (pos n) wan ≡ derived p = rw (← e) d in
      (
        omega arith,
        omega arith,
        some_parity,
        in_field,
        elim (fec_params_for-Fits v.fec n wan p d') [
          | inl off ↦ absurd (Bool-absurd on off)
          | inr (inl cross) ↦ inl cross
          | inr (inr fits) ↦ inr (n, e, fits)
        ],
      )
