-- ===== src/Tunnel/Announce.antt =====
-- internal/tunnel/tunnel.go: the client adopts the FEC section and the MTU that the server announces
-- (applyAnnounce). A codec stands here for the parameters that it was built with; nil is `none`.
use text.Mathlib.Text.{◌==◌ as str_eq}
use flexbraid.Prelude.{
  ℕ, ◌/◌, ◌*◌, Bool, false, ◌&&◌, Option, none, some, List, [], ◌∷◌, map, length, ltb, ◌==◌,
  if◌then◌else◌,
}
use flexbraid.Prelude.Int.{ℤ, pos}
use flexbraid.Float.{Float}
use flexbraid.Fec.{Params, ReedSolomon}
use flexbraid.Fec.Encoder.{new_encoder}
use flexbraid.Fec.Decoder.{new_decoder}
use flexbraid.Config.{Fec, Wan, Config, ServerAnnounce, announce_version}
use flexbraid.Config.Checks.{float_or}
use flexbraid.Tunnel.Params.{derived, refused, ParamsError, fec_params_for}

pub data AnnounceError : Type 0 where
  no_parameters malformed unsupported_version codec_refused : AnnounceError
  invalid_parameters : ParamsError → AnnounceError

module _ (fl : Float) where
  open fl use {Carrier, milli, equal}

  -- encoding/json; `none` is an error.
  pub record Json : Type 0 where
    pub marshal : ServerAnnounce fl → List ℕ
    pub unmarshal : List ℕ → Option (ServerAnnounce fl)

  -- A WAN of the client with its codecs.
  pub record Link : Type 0 where
    pub cfg : Wan fl
    pub enc : Option (Params fl)
    pub dec : Option (Params fl)

  pub record Slots : Type 0 where
    pub cross_path : Bool
    pub xenc : Option (Params fl)
    pub xdec : Option (Params fl)
    pub links : List Link
    pub mtu : ℤ
    pub adopted_fec : Option (Fec fl)

  -- The announce that NewServer prepares.
  unfoldable pub announce : Config fl → ServerAnnounce fl
  announce c = record { version = pos announce_version; mtu = c.mtu; fec = c.fec }

  unfoldable pub normalized : Fec fl → Fec fl
  normalized f =
      if f.enabled then record f { max_loss_pct = float_or fl f.max_loss_pct (milli 20_000) } else f

  -- What follows the rebuilding, unless it failed.
  abbrev pub finish : Fec fl → ℤ → Slots × Option AnnounceError → Slots × Option AnnounceError
  finish f mtu (s, some why) = (s, some why)
  finish f mtu (s, none) = (record s { mtu = mtu; adopted_fec = some f }, none)

  module _ (rs : ReedSolomon) where
    -- The parameters that the codecs built from `p` work with.
    unfoldable pub encoder_of : Params fl → Option (Params fl)
    encoder_of p = elim (new_encoder fl rs p) [ none ↦ none | some e ↦ some e.params ]

    unfoldable pub decoder_of : Params fl → Option (Params fl)
    decoder_of p = some (new_decoder fl rs p).params

    -- The loop over the WANs. It stops at the first error, and what it wrote stays written.
    unfoldable pub rebuild_links : Fec fl → ℤ → List Link → List Link × Option AnnounceError
    rebuild_links f mtu [] = ([], none)
    rebuild_links f mtu (w ∷ ws) =
        let (rest, e) = rebuild_links f mtu ws in
        elim (fec_params_for fl f mtu (some w.cfg)) [
          | refused why ↦ (w ∷ ws, some (invalid_parameters why))
          | derived p ↦ elim (encoder_of p) [
            | none ↦ (record w { enc = none } ∷ ws, some codec_refused)
            | some q ↦ (record w { enc = some q; dec = decoder_of p } ∷ rest, e)
          ]
        ]

    -- One codec for all WANs.
    unfoldable pub rebuild_shared : Fec fl → ℤ → Slots → Slots × Option AnnounceError
    rebuild_shared f mtu s = elim (fec_params_for fl f mtu none) [
      | refused why ↦ (s, some (invalid_parameters why))
      | derived p ↦ elim (encoder_of p) [
        | none ↦ (record s { xenc = none }, some codec_refused)
        | some q ↦ (
          record s {
            xenc = some q;
            xdec = decoder_of p;
            links = map {A = Link} (λ w. record w { enc = some q; dec = decoder_of p }) s.links;
          },
          none,
        )
      ]
    ]

    unfoldable pub adopt : Fec fl → ℤ → Slots → Slots × Option AnnounceError
    adopt f mtu s =
        let cross = str_eq f.mode "crosspath" in
        let s' = record s { cross_path = cross } in
        let (links, failed) = rebuild_links f mtu s.links in
        finish f mtu
          (if cross then rebuild_shared f mtu s' else (record s' { links = links }, failed))

    unfoldable pub apply_announce : Json → List ℕ → Slots → Slots × Option AnnounceError
    apply_announce json bytes s =
        if length bytes == 0 then (s, some no_parameters) else elim (json.unmarshal bytes) [
          | none ↦ (s, some malformed)
          | some a ↦
              if is_version a.version
              then adopt (normalized a.fec) a.mtu s
              else (s, some unsupported_version)
        ]
      where
        is_version : ℤ → Bool
        is_version (pos n) = n == announce_version
        is_version _ = false

  -- The period of the loop that flushes short blocks and drives the delivery buffer's gap timer, in
  -- nanoseconds; `gap_timeout_ms / 4` is an integer division.
  unfoldable pub fec_tick_interval : ℕ → Slots → ℕ
  fec_tick_interval gap_timeout_ms s =
      let first : Option (Params fl) = elim s.links [ [] ↦ none | w ∷ ws ↦ w.enc ] in
      let codec = if s.cross_path then s.xenc else first in
      let half : ℕ = elim codec [ none ↦ 0 | some p ↦ p.block_timeout / 2 ] in
      let gap = gap_timeout_ms / 4 * 1_000_000 in
      let paced = if ltb half 1_000_000 && ltb half gap then gap else half in
      if ltb paced 1_000_000 then 1_000_000 else paced
