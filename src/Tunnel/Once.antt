-- ===== src/Tunnel/Once.antt =====
-- internal/tunnel/tunnel.go: over any datagrams, on any WANs, the client decodes no frame twice.
use flexbraid.Prelude.{
  ℕ, zero, suc, ◌+◌, ◌^◌, ◌<◌, ◌≡◌, refl, ◌∙◌, sym, ◌⊎◌, inl, inr, true, false, not, ◌&&◌, Option,
  none, some, List, [], ◌∷◌, All, arith, Bool-cases, Option-cases, if-false, elim-none, elim-some,
  ◌==◌, get_or, uint32,
}
use mathlib.Core.Path.{subst}
use flexbraid.Float.{Float}
use flexbraid.Frame.{Frame, decode_header, has_flag}
use flexbraid.Frame.Flag
use flexbraid.Fec.{ReedSolomon}
use flexbraid.Crypto.Seal.{Aead, server_to_client}
use flexbraid.Crypto.Kdf.{Library}
use flexbraid.Crypto.Replay.{ReplayWindow, new_replay_window, check_and_mark}
use flexbraid.Crypto.Replay.Window.{Tracks, has, remember}
use flexbraid.Crypto.Replay.Refines.{
  NoRepeat, check_and_mark_new, check_and_mark-Tracks, new-Tracks,
}
use flexbraid.Session.{client_check_replay}
use flexbraid.Tunnel.Wire.{unpack, unpack-seq, header_cases}
use flexbraid.Tunnel.Announce.{Json}
use flexbraid.Tunnel.Client.{
  TunnelClient, Uplink, Received, nothing, decode_next, receive, handle_kex_ack, establish,
  open_and_verify, settle, take_frame,
}

abbrev pub IsByte : ℕ → Type 0
IsByte b = b < 256

get_or-IsByte : (b : List ℕ) (i : ℕ) → All IsByte b → get_or b i 0 < 256
get_or-IsByte [] i h = omega arith
get_or-IsByte (x ∷ b) zero h = h.0
get_or-IsByte (x ∷ b) (suc i) h = get_or-IsByte b i h.1

uint32_small : (b : List ℕ) (i : ℕ) → All IsByte b → uint32 b i < 2 ^ 32
uint32_small b i h = omega (
  arith,
  get_or-IsByte b i h,
  get_or-IsByte b (i + 1) h,
  get_or-IsByte b (i + 2) h,
  get_or-IsByte b (i + 3) h,
)

-- What a round adds to the seqs seen so far: none, or a new one, which alone may be let out.
abbrev pub Step : List ℕ → Option ℕ → ReplayWindow → Type 0
Step seen out w =
    ((out ≡ none) × Tracks 4096 seen w)
    ⊎ ((seq : ℕ) × (has seq seen ≡ false)
        × Tracks 4096 (seq ∷ seen) w
        × ((out ≡ none) ⊎ (out ≡ some seq)))

abbrev seq_of : Option Frame → Option ℕ
seq_of none = none
seq_of (some f) = some f.seq

abbrev pub decoded_seq : Received → Option ℕ
decoded_seq nothing = none
decoded_seq (decode_next f) = some f.seq

quiet :
    (seen : List ℕ) (out out' : Option ℕ) (w : ReplayWindow)
    → (out' ≡ none) ⊎ (out' ≡ out)
    → Step seen out w
    → Step seen out' w
quiet seen out out' w h (inl (e, t)) = inl (ground arith, t)
quiet seen out out' w h (inr (seq, new, t, e)) = inr (seq, new, t, ground arith)

-- A datagram of a history, with its time and the WAN that it comes on.
pub record Arrival : Type 0 where
  pub now : ℕ
  pub bytes : List ℕ
  pub uplink : Uplink

module _ (fl : Float) where
  settle-Step :
      (f : Frame) (c : TunnelClient fl) (seen : List ℕ)
      → f.seq < 2 ^ 32
      → Tracks 4096 seen c.sess.replay
      → Step seen (seq_of (settle fl f c).0) (settle fl f c).1.sess.replay
  unfolding client_check_replay
  settle-Step f c seen small t =
      let after = check_and_mark-Tracks f.seq 4096 seen c.sess.replay t small in
      elim (Bool-cases (check_and_mark f.seq c.sess.replay).0) [
        | inl new ↦
            (let unseen = check_and_mark_new f.seq 4096 seen c.sess.replay t small new in
              let after' =
                subst
                  (λ b. Tracks 4096 (remember b f.seq seen) (check_and_mark f.seq c.sess.replay).1)
                  new after in
              rw new (inr (f.seq, unseen, after', inr refl)))
        | inr old ↦
            (let after' =
                subst
                  (λ b. Tracks 4096 (remember b f.seq seen) (check_and_mark f.seq c.sess.replay).1)
                  old after in
              rw old (inl (refl, after')))
      ]

  abbrev Settles : List ℕ → TunnelClient fl → Option Frame × TunnelClient fl → Type 0
  Settles sealed c r =
      (r ≡ (none, c))
      ⊎ ((a : Aead) × (f : Frame) × (unpack a server_to_client sealed ≡ some f)
          × (r ≡ settle fl f c))

  open_and_verify-Settles :
      (sealed : List ℕ) (c : TunnelClient fl) → Settles sealed c (open_and_verify fl sealed c)
  unfolding open_and_verify
  open_and_verify-Settles sealed c =
      header_cases (Settles sealed c) (decode_header sealed) (none, c) _ (inl refl)
        λ hdr. elim (Option-cases c.sess_aead) [
          | inl e ↦ inl (ground arith)
          | inr (a, e) ↦ elim (Option-cases (unpack a server_to_client sealed)) [
            | inl shut ↦ inl (ground arith)
            | inr (f, opened) ↦ elim (Bool-cases (hdr.session_id == c.sess.id)) [
              | inl same ↦ inr (
                a,
                f,
                opened,
                if-false {b = not (hdr.session_id == c.sess.id)} _ _ (rw same refl)
                    ∙ elim-some _ _ e
                    ∙ elim-some _ _ opened,
              )
              | inr other ↦ inl (rw other refl)
            ]
          ]
        ]

  open_and_verify-Step :
      (sealed : List ℕ) (c : TunnelClient fl) (seen : List ℕ)
      → All IsByte sealed
      → Tracks 4096 seen c.sess.replay
      → Step seen
          (seq_of (open_and_verify fl sealed c).0)
          (open_and_verify fl sealed c).1.sess.replay
  open_and_verify-Step sealed c seen bytes t = elim (open_and_verify-Settles sealed c) [
    | inl e ↦ rw e (inl (refl, t))
    | inr (a, f, opened, e) ↦
        (let small : f.seq < 2 ^ 32 =
            omega (
              arith,
              unpack-seq a server_to_client sealed f opened,
              uint32_small sealed 16 bytes,
            ) in
          rw e (settle-Step f c seen small t))
  ]

  module _ (lib : Library) (rs : ReedSolomon) (json : Json fl) where
    handle_kex_ack-sess :
        (sealed : List ℕ) (c : TunnelClient fl)
        → (handle_kex_ack fl lib rs json sealed c).1.sess ≡ c.sess
    unfolding handle_kex_ack establish
    handle_kex_ack-sess sealed c = ground arith

    take_frame-seq :
        (now : ℕ) (got : Option Frame) (u : Uplink)
        → (decoded_seq (take_frame now got u).0 ≡ none)
          ⊎ (decoded_seq (take_frame now got u).0 ≡ seq_of got)
    unfolding take_frame
    take_frame-seq now got u = ground arith

    receive-Step :
        (now : ℕ) (sealed : List ℕ) (u : Uplink) (c : TunnelClient fl) (seen : List ℕ)
        → All IsByte sealed
        → Tracks 4096 seen c.sess.replay
        → Step seen
            (decoded_seq (receive fl lib rs json now sealed u c).0)
            (receive fl lib rs json now sealed u c).2.sess.replay
    unfolding receive
    receive-Step now sealed u c seen bytes t =
        header_cases
          (λ (r : Received × Uplink × TunnelClient fl). Step seen (decoded_seq r.0) r.2.sess.replay)
          (decode_header sealed) (nothing, u, c) _ (inl (refl, t))
          λ hdr. elim (Bool-cases (hdr.session_id == c.sess.id && has_flag hdr Flag.kex)) [
            | inl handshake ↦ rw handshake (
                inl (
                  refl,
                  subst (λ s. Tracks 4096 seen s.replay) (sym (handle_kex_ack-sess sealed c)) t,
                ))
            | inr data_frame ↦ rw data_frame (
                quiet seen _ _ _ (take_frame-seq now (open_and_verify fl sealed c).0 u)
                  (open_and_verify-Step sealed c seen bytes t))
          ]

    -- The seqs of the frames that the client hands to its decoders.
    unfoldable pub decoded : List Arrival → TunnelClient fl → List ℕ
    decoded [] c = []
    decoded (x ∷ xs) c =
        let r = receive fl lib rs json x.now x.bytes x.uplink c in
        let rest = decoded xs r.2 in elim (decoded_seq r.0) [ none ↦ rest | some seq ↦ seq ∷ rest ]

    abbrev pub AreBytes : List Arrival → Type 0
    AreBytes xs = All (λ x. All IsByte x.bytes) xs

    -- What the rest of a history lets out is new and different from all that was seen.
    abbrev pub NewTo : List ℕ → List ℕ → Type 0
    NewTo seen seqs = NoRepeat seqs × ((seq : ℕ) → has seq seen ≡ true → has seq seqs ≡ false)

    decoded-NewTo :
        (xs : List Arrival) (c : TunnelClient fl) (seen : List ℕ)
        → AreBytes xs
        → Tracks 4096 seen c.sess.replay
        → NewTo seen (decoded xs c)
    unfolding decoded
    decoded-NewTo [] c seen bytes t = (tt, λ seq h. refl)
    decoded-NewTo (x ∷ xs) c seen bytes t =
        let r = receive fl lib rs json x.now x.bytes x.uplink c in
        elim (receive-Step x.now x.bytes x.uplink c seen bytes.0 t) [
          | inl (e, t') ↦
              subst (NewTo seen) (sym (elim-none _ _ e)) (decoded-NewTo xs r.2 seen bytes.1 t')
          | inr (seq, new, t', e) ↦
              (let (once, other) = decoded-NewTo xs r.2 (seq ∷ seen) bytes.1 t' in
                let here : has seq (decoded xs r.2) ≡ false = other seq (ground arith) in
                let there : (q : ℕ) → has q seen ≡ true → has q (decoded xs r.2) ≡ false =
                  λ q h. other q (ground arith) in
                elim e [
                  | inl none_out ↦ subst (NewTo seen) (sym (elim-none _ _ none_out)) (once, there)
                  | inr out ↦
                      subst (NewTo seen) (sym (elim-some _ _ out))
                        ((here, once), λ q h. ground (arith, there q h, new))
                ])
        ]

    -- Over any datagrams at any times, on any WANs, of any key exchange and any order: no frame is handed
    -- to a decoder twice. The session is new.
    pub decoded-NoRepeat :
        (xs : List Arrival) (c : TunnelClient fl)
        → AreBytes xs
        → c.sess.replay ≡ new_replay_window 4096
        → NoRepeat (decoded xs c)
    decoded-NoRepeat xs c bytes fresh =
        (decoded-NewTo xs c [] bytes
          (subst (Tracks 4096 []) (sym fresh) (new-Tracks 4096 (omega arith)))).0
