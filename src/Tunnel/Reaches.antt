-- ===== src/Tunnel/Reaches.antt =====
-- internal/tunnel: a data frame from the client's WAN to the server's decoder.
use mathlib.Core.Path.{subst}
use flexbraid.Prelude.{
  ℕ, ◌^◌, ◌≤◌, ◌<◌, ◌≡◌, refl, ◌∙◌, sym, ap, inl, inr, true, false, not, none, some, List, arith,
  Bool-cases, if-false, elim-none, elim-some, length, ◌==◌,
}
use flexbraid.Float.{Float}
use flexbraid.Frame.{Frame, IsFrame, has_flag, version, max_payload}
use flexbraid.Frame.Flag
use flexbraid.Fec.{ReedSolomon}
use flexbraid.Crypto.Seal.{Aead, IsAead, client_to_server}
use flexbraid.Crypto.Kdf.{Library}
use flexbraid.Session.{ServerSession, check_replay, get_session}
use flexbraid.Tunnel.Wire.{Carries, pack-Carries, elim-ok, pack, unpack-parts}
use flexbraid.Tunnel.Client.{Uplink, Sent, written, send_locked, stamp}
use flexbraid.Tunnel.Server.{Server, Supply, Reaction, take_data, handle_data, handle_client_frame}

-- A frame with inner data: no handshake, no probe, and not empty.
pub record IsData (f : Frame) : Type 0 where
  pub in_range : IsFrame f
  pub no_first : has_flag f Flag.first ≡ false
  pub no_keepalive : has_flag f Flag.keepalive ≡ false
  pub some_bytes : 0 < length f.payload
  pub fits : length f.payload ≤ max_payload

-- The stamp changes nothing but the counter of the path.
stamp-IsData : (f : Frame) (u : Uplink) → u.path_seq < 2 ^ 32 → IsData f → IsData (stamp f u).0
unfolding has_flag
stamp-IsData f u small d = elim (Bool-cases (has_flag f Flag.pass_seq)) [
  | inr plain ↦ rw plain d
  | inl counted ↦ rw counted (record {
    in_range = record {
      flags_in = d.in_range.flags_in;
      session_in = d.in_range.session_in;
      seq_in = d.in_range.seq_in;
      block_in = small;
    };
    no_first = d.no_first;
    no_keepalive = d.no_keepalive;
    some_bytes = d.some_bytes;
    fits = d.fits;
  })
]

sends :
    (a : Aead) (f : Frame) (u : Uplink) (bytes : List ℕ)
    → u.q ≡ none
    → pack a client_to_server (stamp f u).0 ≡ some bytes
    → (send_locked (some a) f u).0 ≡ written bytes
unfolding send_locked
sends a f u bytes idle packed =
    subst (λ (r : Sent × Uplink). r.0 ≡ written bytes) (sym (elim-some _ _ packed))
      (subst (λ (r : Sent × Uplink). r.0 ≡ written bytes) (sym (elim-none _ _ (still ∙ idle))) refl)
  where
    still : (stamp f u).1.q ≡ u.q
    still = elim (Bool-cases (has_flag f Flag.pass_seq)) [ inl e ↦ rw e refl | inr e ↦ rw e refl ]

module _ (fl : Float) (rs : ReedSolomon) (lib : Library) (now addr : ℕ) (supply : Supply)
    (s : Server fl rs) where
  abbrev Decodes : Frame → Reaction fl rs × Server fl rs → Type 0
  Decodes f r = r.0.data_frame ≡ some (addr, f)

  takes :
      (f : Frame) (sess : ServerSession)
      → has_flag f Flag.keepalive ≡ false
      → 0 < length f.payload
      → Decodes f (take_data fl rs lib now addr f sess s)
  unfolding take_data
  takes f sess plain full =
      subst (Decodes f)
        (sym (if-false _ _ plain ∙ if-false {b = length f.payload == 0} _ _ (ground arith))) refl

  -- A datagram that opens to a new frame of a known session is taken for that frame.
  pub opens_to_take :
      (f : Frame) (sess : ServerSession) (bytes : List ℕ)
      → Carries sess.aead client_to_server f bytes
      → has_flag f Flag.first ≡ false
      → get_session f.session_id s.mgr ≡ some sess
      → (check_replay f.seq sess).0 ≡ true
      → handle_client_frame fl rs lib now addr bytes supply s
        ≡ take_data fl rs lib now addr
            (record f { version = version })
            (check_replay f.seq sess).1
            s
  unfolding handle_client_frame handle_data has_flag
  opens_to_take f sess bytes k no_first found new =
      let f' : Frame = record f { version = version } in
      let (plain, opened, decoded) = unpack-parts sess.aead client_to_server bytes f' k.unpacked in
      elim-ok _ _ k.header
      ∙ if-false _ _ no_first
      ∙ elim-some _ _ found
      ∙ elim-some _ _ opened
      ∙ if-false {b = not (check_replay f.seq sess).0} _ _ (rw new refl)
      ∙ elim-ok _ _ decoded

  handles :
      (a : Aead) (f : Frame) (sess : ServerSession) (bytes : List ℕ)
      → Carries a client_to_server f bytes
      → IsData f
      → get_session f.session_id s.mgr ≡ some sess
      → sess.aead ≡ a
      → (check_replay f.seq sess).0 ≡ true
      → Decodes
          (record f { version = version })
          (handle_client_frame fl rs lib now addr bytes supply s)
  unfolding has_flag
  handles a f sess bytes k d found key new =
      let k' = subst (λ x. Carries x client_to_server f bytes) (sym key) k in
      subst (Decodes (record f { version = version }))
        (sym (opens_to_take f sess bytes k' d.no_first found new))
        (takes (record f { version = version }) (check_replay f.seq sess).1 d.no_keepalive
          d.some_bytes)

  -- What a client sends under the key of a session reaches the decoder of the server as it was sent, with
  -- the version that Encode sets and, if it is passed through, with the counter of its path: if
  -- nothing is queued, the session is known, and the seq is new to its window.
  pub data_arrives :
      (a : Aead) (f : Frame) (u : Uplink) (sess : ServerSession)
      → IsAead a
      → IsData f
      → u.q ≡ none
      → u.path_seq < 2 ^ 32
      → get_session f.session_id s.mgr ≡ some sess
      → sess.aead ≡ a
      → (check_replay f.seq sess).0 ≡ true
      → (bytes : List ℕ) × ((send_locked (some a) f u).0 ≡ written bytes)
        × ((handle_client_frame fl rs lib now addr bytes supply s).0.data_frame
            ≡ some (addr, record (stamp f u).0 { version = version }))
  data_arrives a f u sess law d idle small found key new =
      let d' = stamp-IsData f u small d in
      let (bytes, k) = pack-Carries a client_to_server (stamp f u).0 law d'.in_range d'.fits in
      let (same_id, same_seq) = stamp_keeps f u in
      (
        bytes,
        sends a f u bytes idle k.packed,
        handles a (stamp f u).0 sess bytes k d' (ap (λ i. get_session i s.mgr) same_id ∙ found) key
            (ap (λ n. (check_replay n sess).0) same_seq ∙ new),
      )
    where
      stamp_keeps :
          (f : Frame) (u : Uplink)
          → ((stamp f u).0.session_id ≡ f.session_id) × ((stamp f u).0.seq ≡ f.seq)
      stamp_keeps f u = elim (Bool-cases (has_flag f Flag.pass_seq)) [
        | inl e ↦ rw e (refl, refl)
        | inr e ↦ rw e (refl, refl)
      ]
