-- ===== src/Tunnel/Tables.antt =====
-- internal/tunnel/server.go: handleClientFrame keeps the tables of the server within their bounds.
use flexbraid.Prelude.{
  ℕ, ◌<◌, ◌≡◌, refl, ◌∙◌, ap, inl, inr, not, Option, none, some, List, arith, Bool-cases, by_option,
  by_test, length, leb, ◌==◌,
}
use flexbraid.Assoc.{Assoc, lookup, put, All-lookup}
use flexbraid.Float.{Float}
use flexbraid.Frame.{Frame, decode, decode_header, has_flag}
use flexbraid.Frame.Flag
use flexbraid.Fec.{ReedSolomon}
use flexbraid.Crypto.Seal.{open_, client_to_server}
use flexbraid.Crypto.Kdf.{Library}
use flexbraid.Session.{
  ServerSession, next_seq, check_replay, touch, get_session, check_first_replay,
}
use flexbraid.Tunnel.Wire.{header_cases, unpack}
use flexbraid.Tunnel.Paths.{probe_interval}
use flexbraid.Tunnel.Server.{
  Server, Supply, Reaction, silence, register_path, ack_frame, pong_frame, create, admit, greet,
  handle_first, answer_probe, take_data, handle_data, handle_client_frame, max_sessions, state_for,
}
use flexbraid.Tunnel.Bounded.{
  observed_at-FewPaths, IsBounded, HasRoom, keep_session-IsBounded, keep_session-HasRoom,
  state_for-FewPaths, states_with-IsBounded, register_path-Follows,
}

module _ (fl : Float) (rs : ReedSolomon) (lib : Library) where
  abbrev pub Keeps : Reaction fl rs × Server fl rs → Type 0
  Keeps r = IsBounded fl rs r.1

  greet-Keeps :
      (now addr seq : ℕ) (payload : List ℕ) (sess : ServerSession) (s : Server fl rs)
      → HasRoom fl rs sess s
      → IsBounded fl rs s
      → Keeps (greet fl rs lib now addr seq payload sess s)
  unfolding greet check_replay touch ack_frame next_seq
  greet-Keeps now addr seq payload sess s room b =
      let checked = (check_replay seq sess).1 in
      let f = register_path-Follows fl rs now addr (some payload) (touch now checked) s room b in
      elim (Bool-cases (check_replay seq sess).0) [
        | inl new ↦ rw new (keep_session-IsBounded fl rs _ _ f.room f.bounded)
        | inr old ↦ rw old (keep_session-IsBounded fl rs checked s room b)
      ]

  answer_probe-Keeps :
      (now addr : ℕ) (f : Frame) (sess : ServerSession) (s : Server fl rs)
      → HasRoom fl rs sess s
      → IsBounded fl rs s
      → Keeps (answer_probe fl rs lib now addr f sess s)
  unfolding answer_probe pong_frame next_seq
  answer_probe-Keeps now addr f sess s room b =
      let few =
        observed_at-FewPaths fl rs now addr (probe_interval fl s.settings)
          (state_for fl rs sess.id s) (state_for-FewPaths fl rs sess.id s b) in
      keep_session-IsBounded fl rs _ _ room (states_with-IsBounded fl rs sess.id _ s few b)

  take_data-Keeps :
      (now addr : ℕ) (f : Frame) (sess : ServerSession) (s : Server fl rs)
      → HasRoom fl rs sess s
      → IsBounded fl rs s
      → Keeps (take_data fl rs lib now addr f sess s)
  unfolding take_data touch
  take_data-Keeps now addr f sess s room b =
      let p = register_path-Follows fl rs now addr none (touch now sess) s room b in
      let r = register_path fl rs now addr none (touch now sess) s in
      let kept = keep_session-IsBounded fl rs r.0 r.1 p.room p.bounded in
      elim (Bool-cases (has_flag f Flag.keepalive)) [
        | inl probe ↦ rw probe (answer_probe-Keeps now addr f r.0 r.1 p.room p.bounded)
        | inr data_frame ↦
            rw data_frame
              (elim (Bool-cases (length f.payload == 0)) [ inl e ↦ rw e kept | inr e ↦ rw e kept ])
      ]

  known-HasRoom :
      (id : ℕ) (sess : ServerSession) (s : Server fl rs)
      → IsBounded fl rs s
      → get_session id s.mgr ≡ some sess
      → HasRoom fl rs sess s
  unfolding get_session
  known-HasRoom id sess s b e =
      let same : sess.id ≡ id =
        All-lookup (λ (e : ℕ × ServerSession). e.1.id ≡ e.0) id s.mgr.sessions sess b.keyed e in
      inl (sess, ap (λ i. lookup i s.mgr.sessions) same ∙ e)

  checked-HasRoom :
      (seq : ℕ) (sess : ServerSession) (s : Server fl rs)
      → HasRoom fl rs sess s
      → HasRoom fl rs (check_replay seq sess).1 s
  unfolding check_replay
  checked-HasRoom seq sess s room = room

  handle_data-Keeps :
      (now addr id seq : ℕ) (sealed : List ℕ) (s : Server fl rs)
      → IsBounded fl rs s
      → Keeps (handle_data fl rs lib now addr id seq sealed s)
  unfolding handle_data
  handle_data-Keeps now addr id seq sealed s b =
      by_option Keeps (get_session id s.mgr) _ _ (λ _. b)
        λ sess e.
          by_option Keeps (open_ sess.aead client_to_server sealed) _ _ (λ _. b)
            λ plain _.
              let room = known-HasRoom id sess s b e in
              let checked = (check_replay seq sess).1 in
              let room' : HasRoom fl rs checked s = checked-HasRoom seq sess s room in
              let kept = keep_session-IsBounded fl rs checked s room' b in
              by_test Keeps (not (check_replay seq sess).0) _ _ (λ _. kept)
                (λ _.
                  header_cases Keeps (decode plain) _ _ kept
                    λ f. take_data-Keeps now addr f checked s room' b)

  -- The table after an admission, with room for the session that was admitted.
  abbrev Admits : Option ServerSession × Server fl rs → Type 0
  Admits (none, s) = IsBounded fl rs s
  Admits (some sess, s) = IsBounded fl rs s × HasRoom fl rs sess s

  check_first_replay-IsBounded :
      (now id seq : ℕ) (s : Server fl rs)
      → IsBounded fl rs s
      → IsBounded fl rs (record s { mgr = (check_first_replay now id seq s.mgr).1 })
        × ((check_first_replay now id seq s.mgr).1.sessions ≡ s.mgr.sessions)
  unfolding check_first_replay
  check_first_replay-IsBounded now id seq s b =
      (record { sessions = b.sessions; keyed = b.keyed; paths = b.paths }, refl)

  admit-Admits :
      (now id seq : ℕ) (payload : List ℕ) (supply : Supply) (s : Server fl rs)
      → IsBounded fl rs s
      → Admits (admit fl rs lib now id seq payload supply s)
  unfolding admit
  admit-Admits now id seq payload supply s b =
      by_option Admits (get_session id s.mgr) _ _
        (λ _.
          by_test Admits (leb max_sessions (length s.mgr.sessions)) _ _ (λ _. b)
            λ few.
              let s' : Server fl rs = record s { mgr = (check_first_replay now id seq s.mgr).1 } in
              let (b', same) = check_first_replay-IsBounded now id seq s b in
              by_test Admits (not (check_first_replay now id seq s.mgr).0) _ _ (λ _. b')
                λ _.
                  by_option Admits (create fl rs lib now id payload supply s') _ _ (λ _. b')
                    λ (sess, enc) _.
                      let s'' : Server fl rs = record s' { encoders = put id enc s'.encoders } in
                      let b'' : IsBounded fl rs s'' = record {
                        sessions = b'.sessions;
                        keyed = b'.keyed;
                        paths = b'.paths;
                      } in
                      let room : length s'.mgr.sessions < 1024 =
                        ground (arith, ap (λ (m : Assoc ServerSession). length m) same) in
                      (
                        keep_session-IsBounded fl rs sess s'' (inr room) b'',
                        keep_session-HasRoom fl rs sess sess s'' refl,
                      ))
        (λ sess e. (b, known-HasRoom id sess s b e))

  handle_first-Keeps :
      (now addr id seq : ℕ) (sealed : List ℕ) (supply : Supply) (s : Server fl rs)
      → IsBounded fl rs s
      → Keeps (handle_first fl rs lib now addr id seq sealed supply s)
  unfolding handle_first
  handle_first-Keeps now addr id seq sealed supply s b =
      by_option Keeps (unpack s.base_aead client_to_server sealed) _ _ (λ _. b)
        λ f _.
          greeted now addr seq f.payload (admit fl rs lib now id seq f.payload supply s)
            (admit-Admits now id seq f.payload supply s b)
    where
      greeted :
          (now addr seq : ℕ) (payload : List ℕ) (r : Option ServerSession × Server fl rs)
          → Admits r
          → Keeps (elim r.0 as (λ _. Reaction fl rs × Server fl rs) [
            | none ↦ (silence fl rs, r.1)
            | some sess ↦ greet fl rs lib now addr seq payload sess r.1
          ])
      greeted now addr seq payload (none, s') b' = b'
      greeted now addr seq payload (some sess, s') (b', room) =
          greet-Keeps now addr seq payload sess s' room b'

  -- Whatever datagram arrives, from whatever address, and whatever the system supplies: the server has at
  -- most 1024 sessions afterwards, each under its own ID, and at most 16 paths in each, if it did before.
  pub handle_client_frame-IsBounded :
      (now addr : ℕ) (sealed : List ℕ) (supply : Supply) (s : Server fl rs)
      → IsBounded fl rs s
      → IsBounded fl rs (handle_client_frame fl rs lib now addr sealed supply s).1
  unfolding handle_client_frame
  handle_client_frame-IsBounded now addr sealed supply s b =
      header_cases Keeps (decode_header sealed) _ _ b λ hdr.
        by_test Keeps (has_flag hdr Flag.first) _ _
          (λ _. handle_first-Keeps now addr hdr.session_id hdr.seq sealed supply s b)
          (λ _. handle_data-Keeps now addr hdr.session_id hdr.seq sealed s b)
