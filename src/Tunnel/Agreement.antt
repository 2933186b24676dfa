-- ===== src/Tunnel/Agreement.antt =====
-- internal/tunnel: both ends code with the same parameters once the client has adopted the announce.
use mathlib.Core.Path.{subst}
use Prim.Native.String.{String}
use text.Mathlib.Text.{◌==◌ as str_eq}
use flexbraid.Prelude.{
  ◌≡◌, refl, ◌⊎◌, sym, ap, ◌∙◌, false, Option, none, some, List, [], ◌∷◌, All, inl, inr, Bool-cases,
  if-true, if-false, elim-some, length, ◌==◌, map,
}
use flexbraid.Prelude.Int.{ℤ}
use flexbraid.Float.{Float}
use flexbraid.Fec.{Params, ReedSolomon}
use flexbraid.Config.{Config, Fec, Wan}
use flexbraid.Config.Checks.{accepted, accepted_inj, checked-eq-accepted}
use flexbraid.Config.Coding.{check_fec, with_defaults, tests, coding_on}
use flexbraid.Config.Sections.{validate-Sections}
use flexbraid.Config.Settled.{float_or_idem}
use flexbraid.Config.Validate.{Net, validate}
use flexbraid.Tunnel.Params.{Derived, ParamsError, derived, refused, fec_params_for}
use flexbraid.Tunnel.Announce.{
  AnnounceError, Json, Link, Slots, announce, normalized, encoder_of, decoder_of, rebuild_links,
  rebuild_shared, finish, adopt, apply_announce,
}

module _ (fl : Float) where
  open fl use {milli}

  normalized-with_defaults : (f : Fec fl) → normalized fl (with_defaults fl f) ≡ with_defaults fl f
  unfolding normalized with_defaults
  normalized-with_defaults f = elim (Bool-cases f.enabled) [
    | inl e ↦ rw (e, float_or_idem fl f.max_loss_pct (milli 20_000)) refl
    | inr e ↦ rw e refl
  ]

  normalized_off : (f : Fec fl) → f.enabled ≡ false → normalized fl f ≡ f
  unfolding normalized
  normalized_off f off = if-false _ _ off

  -- The client's normalization leaves a validated section alone.
  check_fec-normalized :
      (affinity : String) (a b : Fec fl)
      → check_fec fl affinity a ≡ accepted b
      → normalized fl b ≡ b
  unfolding check_fec
  check_fec-normalized affinity a b h = elim (Bool-cases (coding_on fl a)) [
    | inl on ↦
        (let (same, _) =
            checked-eq-accepted (with_defaults fl) (tests fl affinity) a b
              (sym (if-true _ _ on) ∙ h) in
          rw same (normalized-with_defaults a))
    | inr off ↦
        subst (λ x. normalized fl x ≡ x) (accepted_inj (sym (if-false _ _ off) ∙ h))
          (normalized_off (record a { enabled = false }) refl)
  ]

  without_override :
      (f : Fec fl) (mtu : ℤ) (w : Wan fl)
      → w.fec_max_loss_pct ≡ none
      → fec_params_for fl f mtu (some w) ≡ fec_params_for fl f mtu none
  unfolding fec_params_for
  without_override f mtu w e = rw e refl

  elim-derived {κ} :
      {B : Type κ} {o : Derived (Params fl)} (x : ParamsError → B) (f : Params fl → B)
      {p : Params fl}
      → o ≡ derived p
      → (elim o as (λ _. B) [ refused why ↦ x why | derived v ↦ f v ]) ≡ f p
  elim-derived x f e = rw e refl

  module _ (rs : ReedSolomon) (p q : Params fl) where
    -- The codecs of a WAN are those that `p` gives.
    abbrev pub Codes : Link fl → Type 0
    Codes w = (w.enc ≡ some q) × (w.dec ≡ decoder_of fl rs p)

    abbrev pub HasNoOverride : Link fl → Type 0
    HasNoOverride w = w.cfg.fec_max_loss_pct ≡ none

    abbrev pub Done : List (Link fl) × Option AnnounceError → Type 0
    Done r = All Codes r.0 × (r.1 ≡ none)

    rebuild_links-Codes :
        (f : Fec fl) (mtu : ℤ) (ws : List (Link fl))
        → fec_params_for fl f mtu none ≡ derived p
        → encoder_of fl rs p ≡ some q
        → All HasNoOverride ws
        → Done (rebuild_links fl rs f mtu ws)
    unfolding rebuild_links
    rebuild_links-Codes f mtu [] d built plain = (tt, refl)
    rebuild_links-Codes f mtu (w ∷ ws) d built plain =
        let (codes, fine) = rebuild_links-Codes f mtu ws d built plain.1 in
        let here = without_override f mtu w.cfg plain.0 ∙ d in
        subst Done (sym (elim-derived _ _ here ∙ elim-some _ _ built)) (((refl, refl), codes), fine)

    shared-Codes :
        (ws : List (Link fl))
        → All Codes
            (map {A = Link fl} (λ w. record w { enc = some q; dec = decoder_of fl rs p }) ws)
    shared-Codes [] = tt
    shared-Codes (w ∷ ws) = ((refl, refl), shared-Codes ws)

    -- The slots after a successful adoption of a section and an MTU.
    pub record Adopted (f : Fec fl) (inner_mtu : ℤ) (r : Slots fl × Option AnnounceError)
        : Type 0 where
      pub succeeds : r.1 ≡ none
      pub codecs : All Codes r.0.links
      pub shared :
          (r.0.cross_path ≡ false) ⊎ ((r.0.xenc ≡ some q) × (r.0.xdec ≡ decoder_of fl rs p))
      pub cross_path : r.0.cross_path ≡ str_eq f.mode "crosspath"
      pub mtu : r.0.mtu ≡ inner_mtu

    adopt-Adopted :
        (f : Fec fl) (mtu : ℤ) (s : Slots fl)
        → fec_params_for fl f mtu none ≡ derived p
        → encoder_of fl rs p ≡ some q
        → All HasNoOverride s.links
        → Adopted f mtu (adopt fl rs f mtu s)
    unfolding adopt rebuild_shared
    adopt-Adopted f mtu s d built plain =
        let cross = str_eq f.mode "crosspath" in
        let s' : Slots fl = record s { cross_path = cross } in
        let r = rebuild_links fl rs f mtu s.links in
        let (codes, fine) = rebuild_links-Codes f mtu s.links d built plain in
        elim (Bool-cases cross) [
          | inl e ↦
              subst (Adopted f mtu)
                (sym
                  (ap (finish fl f mtu) (if-true _ _ e ∙ elim-derived _ _ d ∙ elim-some _ _ built)))
                (record {
                  succeeds = refl;
                  codecs = shared-Codes s.links;
                  shared = inr (refl, refl);
                  cross_path = refl;
                  mtu = refl;
                })
          | inr e ↦
              subst (Adopted f mtu)
                (sym (
                  ap (finish fl f mtu) (if-false _ _ e)
                  ∙ ap (λ x. finish fl f mtu (record s' { links = r.0 }, x)) fine))
                (record {
                  succeeds = refl;
                  codecs = codes;
                  shared = inl e;
                  cross_path = refl;
                  mtu = refl;
                })
        ]

    -- A client whose WANs override nothing adopts the announce of a server that could be built: each
    -- WAN then codes with the server's parameters and the MTU is the server's.
    pub both_ends_agree :
        (json : Json fl) (net : Net) (c v : Config fl) (s : Slots fl)
        → json.unmarshal (json.marshal (announce fl v)) ≡ some (announce fl v)
        → (length (json.marshal (announce fl v)) == 0) ≡ false
        → validate fl net c ≡ accepted v
        → fec_params_for fl v.fec v.mtu none ≡ derived p
        → encoder_of fl rs p ≡ some q
        → All HasNoOverride s.links
        → Adopted v.fec v.mtu (apply_announce fl rs json (json.marshal (announce fl v)) s)
    unfolding apply_announce announce
    both_ends_agree json net c v s back some_bytes h d built plain =
        let sections = validate-Sections fl net c v h in
        let same = check_fec-normalized v.scheduler.affinity c.fec v.fec sections.fec in
        subst (Adopted v.fec v.mtu)
          (sym
            (if-false _ _ some_bytes ∙ elim-some _ _ back ∙ ap (λ f. adopt fl rs f v.mtu s) same))
          (adopt-Adopted v.fec v.mtu s d built plain)
