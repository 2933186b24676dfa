-- ===== src/Tunnel/Server.antt =====
-- internal/tunnel/server.go: what the server does with a datagram (handleClientFrame with registerPath,
-- sendAck, sendPong and the table of sessions). All transports give UDP addresses.
use Prim.Native.String.{String}
use flexbraid.Prelude.{
  ℕ, ◌+◌, not, Option, none, some, List, [], ◌∷◌, ◌++◌, length, take, drop, ltb, leb, ◌==◌,
  if◌then◌else◌,
}
use flexbraid.Assoc.{Assoc, lookup, lookup_or, put}
use flexbraid.Float.{Float}
use flexbraid.Frame.{Frame, ok, err, decode, decode_header, has_flag}
use flexbraid.Frame.Flag
use flexbraid.Fec.{ReedSolomon}
use flexbraid.Fec.Encoder.{Encoder, new_encoder}
use flexbraid.Crypto.Seal.{Aead, open_, client_to_server, server_to_client}
use flexbraid.Crypto.Kdf.{Library, public_key_size, ecdh_shared, derive_pfs_key, new_aead}
use flexbraid.Session.{
  Manager, ServerSession, new_server_session, next_seq, check_replay, touch, set_egress,
  set_endpoint, get_session, put_session, check_first_replay,
}
use flexbraid.Tunnel.Wire.{pack, unpack}
use flexbraid.Tunnel.Paths.{
  SessState, Settings, new_state, register, probe_interval, observe_keepalive,
}

abbrev pub max_sessions : ℕ
max_sessions = 1024

-- What a handshake draws from the system: a key pair, private half first, and a socket to the inner peer.
-- `none` is an error.
pub record Supply : Type 0 where
  pub keypair : Option (List ℕ × List ℕ)
  pub socket : Option ℕ

module _ (fl : Float) (rs : ReedSolomon) where
  pub record Server : Type 0 where
    pub cipher : String
    pub psk : List ℕ
    pub base_aead : Aead
    pub announced : List ℕ
    pub settings : Settings fl
    pub mgr : Manager
    pub encoders : Assoc (Encoder fl rs)
    pub states : Assoc (SessState fl)

  -- What the server does beyond its own state: the datagrams that it sends, each with its address, and
  -- a frame with its path for the decoder.
  pub record Reaction : Type 0 where
    pub sent : List (ℕ × List ℕ)
    pub data_frame : Option (ℕ × Frame)

  abbrev pub silence : Reaction
  silence = record { sent = []; data_frame = none }

  -- A frame sealed for an address, unless Encode or Seal fails.
  abbrev pub to_addr : Aead → ℕ → Frame → List (ℕ × List ℕ)
  to_addr a addr f = elim (pack a server_to_client f) [
    | none ↦ []
    | some sealed ↦ (addr, sealed) ∷ []
  ]

  abbrev pub states_with : ℕ → SessState fl → Server → Server
  states_with id st s = record s { states = put id st s.states }

  -- `stateFor`
  abbrev pub state_for : ℕ → Server → SessState fl
  state_for id s = lookup_or (new_state fl s.settings) id s.states

  unfoldable pub register_path :
      ℕ → ℕ → Option (List ℕ) → ServerSession → Server → ServerSession × Server
  register_path now addr payload sess s =
      let (known, st) = register fl s.settings now addr payload (state_for sess.id s) in
      (if known then set_endpoint addr addr sess else sess, states_with sess.id st s)

  unfoldable pub ack_frame : List ℕ → ServerSession → Frame × ServerSession
  ack_frame announced sess =
      let (seq, sess') = next_seq sess in
      (
        record {
          version = 0;
          flags = Flag.control + Flag.kex;
          session_id = sess.id;
          seq = seq;
          block_seq = 0;
          payload = sess.server_pub ++ announced;
        },
        sess',
      )

  unfoldable pub pong_frame : List ℕ → ServerSession → Frame × ServerSession
  pong_frame stamp sess =
      let (seq, sess') = next_seq sess in
      (
        record {
          version = 0;
          flags = Flag.pong;
          session_id = sess.id;
          seq = seq;
          block_seq = 0;
          payload = stamp;
        },
        sess',
      )

  abbrev pub keep_session : ServerSession → Server → Server
  keep_session sess s = record s { mgr = put_session sess s.mgr }

  abbrev pub observed_at : ℕ → ℕ → ℕ → SessState fl → SessState fl
  observed_at now addr interval st = elim (lookup addr st.paths) [
    | none ↦ st
    | some ps ↦ record st { paths = put addr (observe_keepalive fl now interval ps) st.paths }
  ]

  module _ (lib : Library) where
    -- The session of a new ID with its encoder, if nothing fails on the way.
    unfoldable pub create :
        ℕ → ℕ → List ℕ → Supply → Server → Option (ServerSession × Encoder fl rs)
    create now id payload supply s =
        if ltb (length payload) (4 + public_key_size) then none else elim supply.keypair [
          | none ↦ none
          | some (priv, server_pub) ↦
              elim (ecdh_shared lib priv (take public_key_size (drop 4 payload))) [
                | none ↦ none
                | some shared ↦ elim supply.socket [
                  | none ↦ none
                  | some socket ↦
                      elim (new_aead lib (derive_pfs_key lib s.psk shared id) s.cipher) [
                        | none ↦ none
                        | some aead ↦ elim (new_encoder fl rs s.settings.fec_params) [
                          | none ↦ none
                          | some enc ↦
                              (let fresh = new_server_session now id aead in
                                some (
                                  set_egress socket (record fresh { server_pub = server_pub }),
                                  enc,
                                ))
                        ]
                      ]
                ]
              ]
        ]

    -- The session that a FIRST frame is for, created if it is new and passes.
    unfoldable pub admit : ℕ → ℕ → ℕ → List ℕ → Supply → Server → Option ServerSession × Server
    admit now id seq payload supply s = elim (get_session id s.mgr) [
      | some sess ↦ (some sess, s)
      | none ↦
          if leb max_sessions (length s.mgr.sessions)
          then (none, s)
          else (let (new, mgr) = check_first_replay now id seq s.mgr in
              let s' = record s { mgr = mgr } in
              if not new then (none, s') else elim (create now id payload supply s') [
                | none ↦ (none, s')
                | some (sess, enc) ↦
                    (some sess, keep_session sess (record s' { encoders = put id enc s'.encoders }))
              ])
    ]

    -- A replayed FIRST frame ends here; another registers its path and is answered.
    unfoldable pub greet : ℕ → ℕ → ℕ → List ℕ → ServerSession → Server → Reaction × Server
    greet now addr seq payload sess s =
        let (new, checked) = check_replay seq sess in
        if not new
        then (silence, keep_session checked s)
        else (let (placed, s') = register_path now addr (some payload) (touch now checked) s in
            let (ack, sess') = ack_frame s.announced placed in
            (
              record { sent = to_addr s.base_aead addr ack; data_frame = none },
              keep_session sess' s',
            ))

    unfoldable pub handle_first : ℕ → ℕ → ℕ → ℕ → List ℕ → Supply → Server → Reaction × Server
    handle_first now addr id seq sealed supply s =
        elim (unpack s.base_aead client_to_server sealed) [
          | none ↦ (silence, s)
          | some f ↦
              (let (admitted, s') = admit now id seq f.payload supply s in
                elim admitted [
                  | none ↦ (silence, s')
                  | some sess ↦ greet now addr seq f.payload sess s'
                ])
        ]

    -- A keepalive on a registered path feeds its monitor, and is answered.
    unfoldable pub answer_probe : ℕ → ℕ → Frame → ServerSession → Server → Reaction × Server
    answer_probe now addr f sess s =
        let st = state_for sess.id s in
        let interval = probe_interval fl s.settings in
        let st' = observed_at now addr interval st in
        let (pong, sess') = pong_frame f.payload sess in
        (
          record { sent = to_addr sess.aead addr pong; data_frame = none },
          keep_session sess' (states_with sess.id st' s),
        )

    -- A frame that is authentic and new.
    unfoldable pub take_data : ℕ → ℕ → Frame → ServerSession → Server → Reaction × Server
    take_data now addr f sess s =
        let (placed, s') = register_path now addr none (touch now sess) s in
        if has_flag f Flag.keepalive
        then answer_probe now addr f placed s'
        else if length f.payload == 0
        then (silence, keep_session placed s')
        else (record { sent = []; data_frame = some (addr, f) }, keep_session placed s')

    unfoldable pub handle_data : ℕ → ℕ → ℕ → ℕ → List ℕ → Server → Reaction × Server
    handle_data now addr id seq sealed s = elim (get_session id s.mgr) [
      | none ↦ (silence, s)
      | some sess ↦ elim (open_ sess.aead client_to_server sealed) [
        | none ↦ (silence, s)
        | some plain ↦
            (let (new, checked) = check_replay seq sess in
              let s' = keep_session checked s in
              if not new then (silence, s') else elim (decode plain) [
                | err e ↦ (silence, s')
                | ok f ↦ take_data now addr f checked s
              ])
      ]
    ]

    unfoldable pub handle_client_frame : ℕ → ℕ → List ℕ → Supply → Server → Reaction × Server
    handle_client_frame now addr sealed supply s = elim (decode_header sealed) [
      | err e ↦ (silence, s)
      | ok hdr ↦
          if has_flag hdr Flag.first
          then handle_first now addr hdr.session_id hdr.seq sealed supply s
          else handle_data now addr hdr.session_id hdr.seq sealed s
    ]
