-- ===== src/Tunnel/Handshake.antt =====
-- internal/tunnel/tunnel.go, internal/tunnel/server.go: a handshake from the client's FIRST frame to its
-- session key.
use mathlib.Core.Path.{subst}
use flexbraid.Prelude.{
  ℕ, ◌+◌, ◌%◌, ◌^◌, ◌≤◌, ◌<◌, ◌≡◌, refl, ◌∙◌, sym, ap, inl, inr, Bool, true, false, not, ◌||◌,
  Option, none, some, List, [], ◌∷◌, ◌++◌, arith, put32, Bool-cases, if-false, elim-none, elim-some,
  length, length-append, take, take_all, drop, leb, ltb, ◌==◌, ==_refl,
}
use flexbraid.Assoc.{put, lookup-put}
use flexbraid.Float.{Float}
use flexbraid.Frame.{Frame, IsFrame, has_flag, version, max_payload}
use flexbraid.Fec.{ReedSolomon}
use flexbraid.Fec.Encoder.{Encoder, new_encoder}
use flexbraid.Crypto.Seal.{
  Aead, IsAead, client_to_server, server_to_client, take-append, drop-append,
}
use flexbraid.Crypto.Kdf.{Library, ecdh_shared, derive_pfs_key, new_aead}
use flexbraid.Crypto.Replay.Refines.{new_is_fresh}
use flexbraid.Session.{
  ServerSession, client_next_seq, next_seq, check_replay, touch, set_egress, set_endpoint,
  new_server_session, get_session, put_session, check_first_replay,
}
use flexbraid.Tunnel.Wire.{Carries, pack-Carries, elim-ok, pack, unpack}
use flexbraid.Tunnel.Announce.{Json, apply_announce}
use flexbraid.Tunnel.Paths.{register}
use flexbraid.Tunnel.Client.{
  TunnelClient, Uplink, Sent, written, send_locked, hello, handle_kex_ack, establish,
}
use flexbraid.Tunnel.Server.{
  to_addr, state_for, Server, Supply, Reaction, silence, register_path, ack_frame, keep_session,
  create, admit, greet, handle_first, handle_client_frame, max_sessions,
}

module _ (fl : Float) (rs : ReedSolomon) (lib : Library) (json : Json fl) where
  -- A client that has no key yet, a server with the same secret and room for a session, and what the
  -- handshake draws on: two halves of an exchange that agree, and an announce that can be adopted.
  pub record Meeting (now : ℕ) (c : TunnelClient fl) (s : Server fl rs) : Type 0 where
    pub cipher_law : IsAead c.base_aead
    pub one_secret : (s.base_aead ≡ c.base_aead) × (s.psk ≡ c.psk) × (s.cipher ≡ c.cipher)
    pub no_key : c.sess_aead ≡ none
    pub numbers : (c.sess.id < 2 ^ 64) × (c.sess.seq < 2 ^ 32)
    pub half : length c.client_pub ≡ 32
    pub unknown : get_session c.sess.id s.mgr ≡ none
    pub room : length s.mgr.sessions < 1024
    pub new : (check_first_replay now c.sess.id (client_next_seq c.sess).0 s.mgr).0 ≡ true

  pub record Exchange (c : TunnelClient fl) (s : Server fl rs) (supply : Supply) (aead : Aead)
      : Type 0 where
    pub priv : List ℕ
    pub server_pub : List ℕ
    pub shared : List ℕ
    pub socket : ℕ
    pub enc : Encoder fl rs
    pub pair : supply.keypair ≡ some (priv, server_pub)
    pub dialed : supply.socket ≡ some socket
    pub other_half : length server_pub ≡ 32
    pub agree :
        (ecdh_shared lib priv c.client_pub ≡ some shared)
        × (ecdh_shared lib c.client_priv server_pub ≡ some shared)
    pub keyed : new_aead lib (derive_pfs_key lib c.psk shared c.sess.id) c.cipher ≡ some aead
    pub encoder : new_encoder fl rs s.settings.fec_params ≡ some enc
    pub fits : length server_pub + length s.announced ≤ 65_535
    pub adopted : (apply_announce fl rs json s.announced c.slots).1 ≡ none

  -- A registration leaves alone what the answer is made of.
  register_path-ack :
      (now addr : ℕ) (payload : Option (List ℕ)) (announced : List ℕ) (sess : ServerSession)
      (s : Server fl rs)
      → let placed = (register_path fl rs now addr payload sess s).0 in
        ((ack_frame fl rs announced placed).0 ≡ (ack_frame fl rs announced sess).0)
        × ((ack_frame fl rs announced placed).1.aead ≡ sess.aead)
        × ((ack_frame fl rs announced placed).1.id ≡ sess.id)
  unfolding register_path set_endpoint ack_frame next_seq
  register_path-ack now addr payload announced sess s =
      elim (Bool-cases (register fl s.settings now addr payload (state_for fl rs sess.id s)).0) [
        | inl e ↦ rw e (refl, refl, refl)
        | inr e ↦ rw e (refl, refl, refl)
      ]

  module _ (now addr capacity : ℕ) (c : TunnelClient fl) (u : Uplink) (s : Server fl rs)
      (supply : Supply) (aead : Aead) where
    abbrev first : Frame
    first = (hello fl capacity c).0

    first-IsFrame : Meeting now c s → IsFrame first × (length first.payload ≡ 36)
    unfolding hello client_next_seq
    first-IsFrame m =
        let (id, seq) = m.numbers in
        (
          record {
            flags_in = omega arith;
            session_in = id;
            seq_in = omega arith;
            block_in = omega arith;
          },
          omega (arith, length-append (put32 (capacity % 2 ^ 32)) c.client_pub, m.half),
        )

    seq_small : (client_next_seq c.sess).0 < 2 ^ 32
    unfolding client_next_seq
    seq_small = omega arith

    sends :
        (bytes : List ℕ)
        → pack c.base_aead client_to_server first ≡ some bytes
        → u.q ≡ none
        → (send_locked (some c.base_aead) first u).0 ≡ written bytes
    unfolding send_locked hello has_flag
    sends bytes packed idle =
        subst (λ (r : Sent × Uplink). r.0 ≡ written bytes) (sym (elim-some _ _ packed))
          (subst (λ (r : Sent × Uplink). r.0 ≡ written bytes) (sym (elim-none _ _ idle)) refl)

    client_half : Meeting now c s → take 32 (drop 4 first.payload) ≡ c.client_pub
    unfolding hello
    client_half m = subst (λ n. take n c.client_pub ≡ c.client_pub) m.half (take_all c.client_pub)

    module _ (m : Meeting now c s) (e : Exchange c s supply aead) where
      abbrev id : ℕ
      id = c.sess.id

      abbrev fresh : ServerSession
      fresh =
          set_egress e.socket
            (record (new_server_session now id aead) { server_pub = e.server_pub })

      abbrev noted : Server fl rs
      noted = record s { mgr = (check_first_replay now id (client_next_seq c.sess).0 s.mgr).1 }

      abbrev seated : Server fl rs
      seated = keep_session fl rs fresh (record noted { encoders = put id e.enc s.encoders })

      creates : create fl rs lib now id first.payload supply noted ≡ some (fresh, e.enc)
      unfolding create
      creates =
          let (_, psk, cipher) = m.one_secret in
          let (_, size) = first-IsFrame m in
          let shared : ecdh_shared lib e.priv (take 32 (drop 4 first.payload)) ≡ some e.shared =
            ap (ecdh_shared lib e.priv) (client_half m) ∙ e.agree.0 in
          let key : new_aead lib (derive_pfs_key lib s.psk e.shared id) s.cipher ≡ some aead =
            rw (psk, cipher) e.keyed in
          if-false {b = ltb (length first.payload) 36} _ _ (ground (arith, size))
          ∙ elim-some _ _ e.pair
          ∙ elim-some _ _ shared
          ∙ elim-some _ _ e.dialed
          ∙ elim-some _ _ key
          ∙ elim-some _ _ e.encoder

      admits :
          admit fl rs lib now id (client_next_seq c.sess).0 first.payload supply s
          ≡ (some fresh, seated)
      unfolding admit
      admits =
          elim-none _ _ m.unknown
          ∙ if-false {b = leb max_sessions (length s.mgr.sessions)} _ _ (ground (arith, m.room))
          ∙ if-false {b = not (check_first_replay now id (client_next_seq c.sess).0 s.mgr).0} _ _
              (rw m.new refl)
          ∙ elim-some _ _ creates

      abbrev ack : Frame
      ack = (ack_frame fl rs s.announced fresh).0

      -- The answer goes out, and the session with the agreed key is in the table.
      abbrev Answered : Reaction fl rs × Server fl rs → Type 0
      Answered r =
          (r.0.sent ≡ to_addr fl rs s.base_aead addr ack)
          × (sess : ServerSession) × (get_session id r.1.mgr ≡ some sess)
          × (sess.aead ≡ aead)

      checked_ack :
          (ack_frame fl rs s.announced
            (touch now (check_replay (client_next_seq c.sess).0 fresh).1)).0
          ≡ ack
      unfolding ack_frame check_replay touch next_seq
      checked_ack = refl

      greets :
          Answered (greet fl rs lib now addr (client_next_seq c.sess).0 first.payload fresh seated)
      unfolding greet check_replay touch set_egress new_server_session get_session put_session
      greets =
          let seq = (client_next_seq c.sess).0 in
          let small : seq < 2 ^ 32 = seq_small in
          let checked = touch now (check_replay seq fresh).1 in
          let placed = register_path fl rs now addr (some first.payload) checked seated in
          let (same, key, same_id) =
            register_path-ack now addr (some first.payload) s.announced checked seated in
          let sess = (ack_frame fl rs s.announced placed.0).1 in
          subst Answered
            (sym (
              if-false {b = not (check_replay seq fresh).0} _ _ (rw (new_is_fresh seq small) refl)))
            (
              ap (λ f. to_addr fl rs s.base_aead addr f) (same ∙ checked_ack),
              sess,
              ground (arith, lookup-put sess.id id sess placed.1.mgr.sessions, same_id),
              key,
            )

      handles :
          (bytes : List ℕ)
          → Carries c.base_aead client_to_server first bytes
          → Answered (handle_client_frame fl rs lib now addr bytes supply s)
      unfolding handle_client_frame handle_first hello has_flag
      handles bytes k =
          let seq = (client_next_seq c.sess).0 in
          let opened : unpack s.base_aead client_to_server bytes
              ≡ some (record first { version = version }) =
            ap (λ a. unpack a client_to_server bytes) m.one_secret.0 ∙ k.unpacked in
          subst Answered
            (sym (
              elim-ok _ _ k.header
              ∙ elim-some _ _ opened
              ∙ ap
                  (λ (r : Option ServerSession × Server fl rs).
                    elim r.0 as (λ _. Reaction fl rs × Server fl rs) [
                      | none ↦ (silence fl rs, r.1)
                      | some sess ↦ greet fl rs lib now addr seq first.payload sess r.1
                    ])
                  admits))
            greets

      ack-IsFrame : IsFrame ack × (length ack.payload ≤ max_payload)
      unfolding ack_frame next_seq set_egress new_server_session
      ack-IsFrame = (
        record {
          flags_in = omega arith;
          session_in = m.numbers.0;
          seq_in = omega arith;
          block_in = omega arith;
        },
        omega (arith, length-append e.server_pub s.announced, e.fits),
      )

      -- The client after the answer has the key, and its codecs are those of the announce.
      abbrev Established : Bool × TunnelClient fl → Type 0
      Established r = (r.0 ≡ true) × (r.1.sess_aead ≡ some aead)

      derives :
          Established (establish fl lib rs json e.server_pub s.announced (hello fl capacity c).1)
      unfolding establish hello client_next_seq
      derives =
          subst Established
            (sym (elim-some _ _ e.agree.1 ∙ elim-some _ _ e.keyed ∙ elim-none _ _ e.adopted))
            (refl, refl)

      establishes :
          (ack_bytes : List ℕ)
          → Carries c.base_aead server_to_client ack ack_bytes
          → Established (handle_kex_ack fl lib rs json ack_bytes (hello fl capacity c).1)
      unfolding handle_kex_ack establish hello client_next_seq ack_frame next_seq set_egress
          new_server_session
      establishes ack_bytes k =
          let mine : take 32 (e.server_pub ++ s.announced) ≡ e.server_pub =
            take-append e.server_pub s.announced 32 e.other_half in
          let rest : drop 32 (e.server_pub ++ s.announced) ≡ s.announced =
            drop-append e.server_pub s.announced 32 e.other_half in
          let long : 32 ≤ length (e.server_pub ++ s.announced) =
            omega (arith, length-append e.server_pub s.announced, e.other_half) in
          let accepted : (not (id == id) || ltb (length (e.server_pub ++ s.announced)) 32) ≡ false =
            ground (arith, ==_refl id) in
          subst Established
            (sym (
              elim-some _ _ k.unpacked
              ∙ if-false _ _ accepted
              ∙ elim-none _ _ m.no_key
              ∙ ap
                  (λ p.
                    establish fl lib rs json p (drop 32 (e.server_pub ++ s.announced))
                      (hello fl capacity c).1)
                  mine
              ∙ ap (λ p. establish fl lib rs json e.server_pub p (hello fl capacity c).1) rest))
            derives

    -- A client and a server that share a secret agree on the key of a session in one round trip: the
    -- client's FIRST frame makes the server create the session and answer, and the answer makes the
    -- client adopt the announce and publish the key that the session has. The exchange has halves that
    -- agree, the cipher opens what it sealed, and the announce can be adopted.
    pub handshake_agrees :
        Meeting now c s
        → Exchange c s supply aead
        → u.q ≡ none
        → (bytes : List ℕ) × (ack_bytes : List ℕ) × (sess : ServerSession) × ((send_locked
              (some c.base_aead)
              first
              u).0
            ≡ written bytes)
          × ((handle_client_frame fl rs lib now addr bytes supply s).0.sent
              ≡ (addr, ack_bytes) ∷ [])
          × (get_session c.sess.id (handle_client_frame fl rs lib now addr bytes supply s).1.mgr
              ≡ some sess)
          × (sess.aead ≡ aead)
          × ((handle_kex_ack fl lib rs json ack_bytes (hello fl capacity c).1).0 ≡ true)
          × ((handle_kex_ack fl lib rs json ack_bytes (hello fl capacity c).1).1.sess_aead
              ≡ some aead)
    handshake_agrees m e idle =
        let (frame_in, size) = first-IsFrame m in
        let (bytes, k) =
          pack-Carries c.base_aead client_to_server first m.cipher_law frame_in
            (omega (arith, size)) in
        let (ack_in, small) = ack-IsFrame m e in
        let (ack_bytes, k') =
          pack-Carries c.base_aead server_to_client (ack m e) m.cipher_law ack_in small in
        let (answer, sess, found, key) = handles m e bytes k in
        let out = ap (λ a. pack a server_to_client (ack m e)) m.one_secret.0 ∙ k'.packed in
        let (done, published) = establishes m e ack_bytes k' in
        (
          bytes,
          ack_bytes,
          sess,
          sends bytes k.packed idle,
          answer ∙ elim-some _ _ out,
          found,
          key,
          done,
          published,
        )
