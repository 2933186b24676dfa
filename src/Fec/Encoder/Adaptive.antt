-- ===== src/Fec/Encoder/Adaptive.antt =====
-- internal/fec/fec.go: when an adaptive encoder codes, and with how much redundancy.
use flexbraid.Prelude.{
  if-true, if-false, elim-none, elim-some, Bool-absurd, ap, sym, ◌∙◌, ℕ, ◌+◌, ◌≤◌, ◌<◌, ◌≡◌, true,
  false, ◌⊎◌, inl, inr, none, some, arith, Option-cases, Bool-cases, ◌≢◌,
}
use flexbraid.Float.{Float}
use flexbraid.Fec.{AdaptiveParams, Params, enabled, ReedSolomon}
use flexbraid.Fec.Redundancy.{parity_for_loss, parity_bounds}
use flexbraid.Fec.Encoder.{Encoder, rebuild, decide, refresh_fixed, refresh_adaptive, refresh}

module _ (fl : Float) (rs : ReedSolomon) where
  -- Coding stops only where it may: the codec is adaptive and does not code across paths, the loss
  -- is below the off threshold, and coding has been on for `hold`.
  pub coding_stops :
      (now : ℕ) (e : Encoder fl rs)
      → e.coding_on ≡ true
      → (refresh fl rs now e).coding_on ≡ false
      → (a : AdaptiveParams fl) × (e.params.adaptive ≡ some a)
        × (e.params.cross_path ≡ false)
        × (fl.lt (fl.mul e.loss_rate (fl.milli 100_000)) a.off_loss_pct ≡ true)
        × (e.coding_since + a.hold ≤ now)
  unfolding refresh
  coding_stops now e on off = elim (Option-cases e.params.adaptive) [
    | inl n ↦ absurd (ground arith)
    | inr (a, s) ↦ (a, s, ground arith, ground arith, ground arith)
  ]

  -- It starts only at a loss that reaches the on threshold, and notes the time.
  pub coding_starts :
      (now : ℕ) (e : Encoder fl rs) (a : AdaptiveParams fl)
      → e.params.adaptive ≡ some a
      → e.params.cross_path ≡ false
      → e.coding_on ≡ false
      → (refresh fl rs now e).coding_on ≡ true
      → (fl.le a.on_loss_pct (fl.mul e.loss_rate (fl.milli 100_000)) ≡ true)
        × ((refresh fl rs now e).coding_since ≡ now)
  unfolding refresh
  coding_starts now e a s c off on = ground arith

  rebuild_lem :
      (e : Encoder fl rs)
      → rs.accepts e.params.data_shards (parity_for_loss fl e.loss_rate e.params) ≡ true
      → (rebuild fl rs e).rs_parity ≡ parity_for_loss fl e.loss_rate e.params
  unfolding rebuild
  rebuild_lem e ok = ground arith

  decide_keeps :
      (now : ℕ) (a : AdaptiveParams fl) (e : Encoder fl rs)
      → ((decide fl rs now a e).params ≡ e.params)
        × ((decide fl rs now a e).loss_rate ≡ e.loss_rate)
  unfolding decide
  decide_keeps now a e = ground arith

  redundancy_fixed :
      (e : Encoder fl rs)
      → rs.accepts e.params.data_shards (parity_for_loss fl e.loss_rate e.params) ≡ true
      → e.params.cross_path ≡ true
      → (refresh_fixed fl rs e).rs_parity ≡ parity_for_loss fl e.loss_rate e.params
  unfolding refresh_fixed
  redundancy_fixed e ok c =
      ap (λ (r : Encoder fl rs). r.rs_parity) (if-true _ _ c)
      ∙ rebuild_lem (record e { coding_on = true }) ok

  redundancy_adaptive :
      (now : ℕ) (a : AdaptiveParams fl) (e : Encoder fl rs)
      → rs.accepts e.params.data_shards (parity_for_loss fl e.loss_rate e.params) ≡ true
      → (refresh_adaptive fl rs now a e).coding_on ≡ true
      → (refresh_adaptive fl rs now a e).rs_parity ≡ parity_for_loss fl e.loss_rate e.params
  unfolding refresh_adaptive
  redundancy_adaptive now a e ok on =
      let d = decide fl rs now a e in
      let (same_params, same_loss) = decide_keeps now a e in
      let called : parity_for_loss fl d.loss_rate d.params
          ≡ parity_for_loss fl e.loss_rate e.params =
        cc in
      let ok' : rs.accepts d.params.data_shards (parity_for_loss fl d.loss_rate d.params) ≡ true =
        ap (λ (q : Params fl). rs.accepts q.data_shards (parity_for_loss fl d.loss_rate d.params))
          same_params
        ∙ ap (λ x. rs.accepts e.params.data_shards x) called
        ∙ ok in
      elim (Bool-cases d.coding_on) [
        | inl c ↦
            ap (λ (r : Encoder fl rs). r.rs_parity) (if-true _ _ c) ∙ rebuild_lem d ok' ∙ called
        | inr c ↦
            absurd (Bool-absurd on (ap (λ (r : Encoder fl rs). r.coding_on) (if-false _ _ c) ∙ c))
      ]

  -- While an adaptive or cross-path codec codes, its redundancy is the one that the latest loss
  -- calls for, if the code exists at the sizes of an enabled codec.
  pub redundancy_current :
      (now : ℕ) (e : Encoder fl rs)
      → ((k p : ℕ) → 0 < p → k + p ≤ 256 → rs.accepts k p ≡ true)
      → e.params.data_shards < 256
      → enabled fl e.params ≡ true
      → ((e.params.adaptive ≢ none) ⊎ (e.params.cross_path ≡ true))
      → (refresh fl rs now e).coding_on ≡ true
      → (refresh fl rs now e).rs_parity ≡ parity_for_loss fl e.loss_rate e.params
  unfolding refresh
  redundancy_current now e exists small on kind coding =
      let k = e.params.data_shards in
      let p = parity_for_loss fl e.loss_rate e.params in
      let (pos, fits, _, _) = parity_bounds fl e.loss_rate e.params small on in
      let ok : rs.accepts k p ≡ true = exists k p pos fits in
      let parity : Encoder fl rs → ℕ = λ r. r.rs_parity in
      elim (Option-cases e.params.adaptive) [
        | inl n ↦ elim kind [
          | inl h ↦ absurd (h n)
          | inr c ↦ ap parity (elim-none _ _ n) ∙ redundancy_fixed e ok c
        ]
        | inr (a, s) ↦ elim (Bool-cases e.params.cross_path) [
          | inl c ↦ ap parity (elim-some _ _ s ∙ if-true _ _ c) ∙ redundancy_fixed e ok c
          | inr c ↦
              let same = elim-some (refresh_fixed fl rs e) _ s ∙ if-false _ _ c in
              ap parity same
              ∙ redundancy_adaptive now a e ok
                  (sym (ap (λ (r : Encoder fl rs). r.coding_on) same) ∙ coding)
        ]
      ]
