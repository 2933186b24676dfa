-- ===== src/Tunnel/Cadence.antt =====
-- internal/tunnel/tunnel.go: the period of the client's tick loop, and what a refused announce leaves.
use text.Mathlib.Text.{◌==◌ as str_eq}
use flexbraid.Prelude.{
  not, ◌||◌, ℕ, ◌*◌, ◌≤◌, ◌≡◌, refl, ◌∙◌, sym, ap, false, some, List, ◌∷◌, arith, if-true,
}
use flexbraid.Prelude.Int.{ℤ, pos, pos_part}
use flexbraid.Float.{Float}
use flexbraid.Fec.{Params, ReedSolomon, enabled}
use flexbraid.Fec.Encoder.{new_encoder}
use flexbraid.Config.{Fec}
use flexbraid.Tunnel.Params.{derived, fec_params_for, pass_through}
use flexbraid.Tunnel.Fits.{derived_inj}
use flexbraid.Tunnel.Announce.{
  AnnounceError, Json, Link, Slots, encoder_of, rebuild_shared, adopt, apply_announce,
  fec_tick_interval,
}

module _ (fl : Float) where
  pub fec_tick_interval-bounds :
      (gap_timeout_ms : ℕ) (s : Slots fl)
      → 10 ≤ gap_timeout_ms
      → 1_000_000 ≤ fec_tick_interval fl gap_timeout_ms s
  unfolding fec_tick_interval
  fec_tick_interval-bounds g s h = ground arith

  -- With FEC switched off and no block timeout set, the built codecs still have the default block
  -- timeout of 8 ms, so that the loop runs every 4 ms whatever the gap timeout is.
  pub tick_without_fec :
      (rs : ReedSolomon) (f : Fec fl) (mtu : ℤ) (gap_timeout_ms : ℕ) (w : Link fl)
      (ws : List (Link fl)) (s : Slots fl) (p : Params fl)
      → f.enabled ≡ false
      → f.block_timeout_ms ≡ pos 0
      → fec_params_for fl f mtu (some w.cfg) ≡ derived p
      → w.enc ≡ encoder_of fl rs p
      → s.links ≡ w ∷ ws
      → s.cross_path ≡ false
      → fec_tick_interval fl gap_timeout_ms s ≡ 4_000_000
  unfolding fec_tick_interval encoder_of new_encoder fec_params_for enabled
  tick_without_fec rs f mtu g w ws s p off unset d built links own =
      let timeout = pos_part f.block_timeout_ms * 1_000_000 in
      let same : derived (pass_through fl timeout) ≡ derived p =
        sym (if-true {b = not f.enabled || str_eq f.mode "off"} _ _ (rw off refl)) ∙ d in
      let idle : p ≡ pass_through fl 0 =
        sym (derived_inj fl same) ∙ ap (λ x. pass_through fl (pos_part x * 1_000_000)) unset in
      let enc : w.enc
          ≡ some (record (pass_through fl 0) { data_shards = 10; block_timeout = 8_000_000 }) =
        built ∙ ap (encoder_of fl rs) idle in
      rw (own, links, enc) (ground arith)

  module _ (rs : ReedSolomon) where
    -- A refused announce leaves the MTU and the adopted section alone.
    pub refused_keeps :
        (json : Json fl) (bytes : List ℕ) (s : Slots fl) (why : AnnounceError)
        → (apply_announce fl rs json bytes s).1 ≡ some why
        → ((apply_announce fl rs json bytes s).0.mtu ≡ s.mtu)
          × ((apply_announce fl rs json bytes s).0.adopted_fec ≡ s.adopted_fec)
    unfolding apply_announce adopt rebuild_shared
    refused_keeps json bytes s why h = ground arith
