-- ===== src/Tunnel/Client.antt =====
-- internal/tunnel/tunnel.go: the client's ends of the handshake and of the receive path (handshakeLoop,
-- sendLocked, handleKexAck, openAndVerify, recvLoop for one datagram, handlePong). A WAN with no send
-- queue writes to its transport; a queue is a `SendQueue`. Times are nanoseconds.
use Prim.Native.String.{String}
use flexbraid.Prelude.{
  ℕ, ◌+◌, ◌-◌, ◌*◌, ◌^◌, ◌%◌, Bool, true, false, not, ◌&&◌, ◌||◌, Option, none, some, List, ◌++◌,
  length, take, drop, put32, uint64, ltb, ◌==◌, if◌then◌else◌,
}
use flexbraid.Prelude.Int.{ℤ, pos, negsuc, ◌-ℤ◌}
use flexbraid.Float.{Float}
use flexbraid.Frame.{Frame, ok, err, decode_header, has_flag}
use flexbraid.Frame.Flag
use flexbraid.Fec.{ReedSolomon}
use flexbraid.Crypto.Seal.{Aead, client_to_server, server_to_client}
use flexbraid.Crypto.Kdf.{Library, public_key_size, ecdh_shared, derive_pfs_key, new_aead}
use flexbraid.Session.{Client, client_next_seq, client_check_replay}
use flexbraid.SendQueue.{SendQueue, enqueue}
use flexbraid.Tunnel.Wire.{pack, unpack}
use flexbraid.Tunnel.Announce.{Json, Slots, apply_announce}

-- The counters and the probe of one WAN.
pub record Uplink : Type 0 where
  pub path_seq : ℕ
  pub q : Option SendQueue
  pub last_rx : ℕ
  pub probe_out : Bool
  pub probe_rtt : ℤ
  pub pongs : ℕ

-- What became of a frame that was sent.
pub data Sent : Type 0 where
  no_key refused dropped queued : Sent
  written : List ℕ → Sent

-- `int64(binary.BigEndian.Uint64(b))`
abbrev pub signed64 : ℕ → ℤ
signed64 n = if ltb n (2 ^ 63) then pos n else pos n -ℤ pos (2 ^ 64)

-- `time.UnixMilli`
abbrev pub millis : ℤ → ℤ
millis (pos n) = pos (n * 1_000_000)
millis (negsuc n) = negsuc ((n + 1) * 1_000_000 - 1)

-- The counter of the path in a frame that is passed through.
abbrev pub stamp : Frame → Uplink → Frame × Uplink
stamp f u =
    if has_flag f Flag.pass_seq
    then (record f { block_seq = u.path_seq }, record u { path_seq = (u.path_seq + 1) % 2 ^ 32 })
    else (f, u)

abbrev pub hand_over : List ℕ → Uplink → Sent × Uplink
hand_over sealed u = elim u.q [
  | none ↦ (written sealed, u)
  | some q ↦
      (let (taken, q') = enqueue sealed q in
        (if taken then queued else dropped, record u { q = some q' }))
]

unfoldable pub send_locked : Option Aead → Frame → Uplink → Sent × Uplink
send_locked aead f u = elim aead [
  | none ↦ (no_key, u)
  | some a ↦
      (let (f', u') = stamp f u in
        elim (pack a client_to_server f') [
          | none ↦ (refused, u')
          | some sealed ↦ hand_over sealed u'
        ])
]

-- The RTT of a probe that carries its time in milliseconds.
unfoldable pub handle_pong : ℕ → Frame → Uplink → Uplink
handle_pong now f u =
    if length f.payload == 8
    then record u {
      probe_rtt = pos now -ℤ millis (signed64 (uint64 f.payload 0));
      probe_out = false;
      pongs = u.pongs + 1;
    }
    else u

-- What the receive loop does with a datagram beyond the client's own state: nothing, or a frame for
-- the decoder of the WAN.
pub data Received : Type 0 where
  nothing : Received
  decode_next : Frame → Received

abbrev pub holds_no_data : Frame → Bool
holds_no_data f = has_flag f Flag.control || has_flag f Flag.keepalive || length f.payload == 0

-- What the round does with what was let through.
unfoldable pub take_frame : ℕ → Option Frame → Uplink → Received × Uplink
take_frame now got u = elim got [
  | none ↦ (nothing, u)
  | some f ↦
      (let alive = record u { last_rx = now } in
        if has_flag f Flag.pong
        then (nothing, handle_pong now f alive)
        else (if holds_no_data f then nothing else decode_next f, alive))
]

module _ (fl : Float) where
  -- `sess_aead` is `none` until the session is ready.
  pub record TunnelClient : Type 0 where
    pub cipher : String
    pub psk : List ℕ
    pub client_priv : List ℕ
    pub client_pub : List ℕ
    pub base_aead : Aead
    pub sess : Client
    pub sess_aead : Option Aead
    pub slots : Slots fl

  -- The FIRST frame of the handshake loop.
  unfoldable pub hello : ℕ → TunnelClient → Frame × TunnelClient
  hello capacity_mbps c =
      let (seq, sess) = client_next_seq c.sess in
      (
        record {
          version = 0;
          flags = Flag.first;
          session_id = c.sess.id;
          seq = seq;
          block_seq = 0;
          payload = put32 (capacity_mbps % 2 ^ 32) ++ c.client_pub;
        },
        record c { sess = sess },
      )

  -- An authentic frame, unless it is a replay.
  abbrev pub settle : Frame → TunnelClient → Option Frame × TunnelClient
  settle f c =
      let (new, sess) = client_check_replay f.seq c.sess in
      let c' = record c { sess = sess } in if new then (some f, c') else (none, c')

  -- Header, key, AEAD, and only then the replay window.
  abbrev pub verify : Frame → List ℕ → TunnelClient → Option Frame × TunnelClient
  verify hdr sealed c = if not (hdr.session_id == c.sess.id) then (none, c) else elim c.sess_aead [
    | none ↦ (none, c)
    | some a ↦ elim (unpack a server_to_client sealed) [ none ↦ (none, c) | some f ↦ settle f c ]
  ]

  unfoldable pub open_and_verify : List ℕ → TunnelClient → Option Frame × TunnelClient
  open_and_verify sealed c = elim (decode_header sealed) [
    | err e ↦ (none, c)
    | ok hdr ↦ verify hdr sealed c
  ]

  module _ (lib : Library) (rs : ReedSolomon) (json : Json fl) where
    -- The key is published only after the announce has been adopted.
    unfoldable pub establish : List ℕ → List ℕ → TunnelClient → Bool × TunnelClient
    establish server_pub announced c = elim (ecdh_shared lib c.client_priv server_pub) [
      | none ↦ (false, c)
      | some shared ↦ elim (new_aead lib (derive_pfs_key lib c.psk shared c.sess.id) c.cipher) [
        | none ↦ (false, c)
        | some aead ↦
            (let (slots, failed) = apply_announce fl rs json announced c.slots in
              elim failed [
                | some why ↦ (false, record c { slots = slots })
                | none ↦ (true, record c { slots = slots; sess_aead = some aead })
              ])
      ]
    ]

    unfoldable pub handle_kex_ack : List ℕ → TunnelClient → Bool × TunnelClient
    handle_kex_ack sealed c = elim (unpack c.base_aead server_to_client sealed) [
      | none ↦ (false, c)
      | some f ↦
          if not (f.session_id == c.sess.id) || ltb (length f.payload) public_key_size
          then (false, c)
          else elim c.sess_aead [
            | some ready ↦ (true, c)
            | none ↦ establish (take public_key_size f.payload) (drop public_key_size f.payload) c
          ]
    ]

    -- One round of the receive loop of a WAN.
    unfoldable pub receive : ℕ → List ℕ → Uplink → TunnelClient → Received × Uplink × TunnelClient
    receive now sealed u c = elim (decode_header sealed) [
      | err e ↦ (nothing, u, c)
      | ok hdr ↦
          if hdr.session_id == c.sess.id && has_flag hdr Flag.kex
          then (let (authentic, c') = handle_kex_ack sealed c in
              (nothing, if authentic then record u { last_rx = now } else u, c'))
          else (let (got, c') = open_and_verify sealed c in
              let (out, u') = take_frame now got u in (out, u', c'))
    ]
