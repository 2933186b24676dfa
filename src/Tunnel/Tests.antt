-- ===== src/Tunnel/Tests.antt =====
-- internal/tunnel: runs and witnesses.
use flexbraid.Frame.{decode, Frame, has_flag, version, header, decode_header}
use flexbraid.Frame.Flag
use flexbraid.Scheduler.{lb, packet, by_capacity}
use flexbraid.Scheduler as scheduler
use flexbraid.Crypto.Seal.{Aead, IsAead, client_to_server, server_to_client, open_}
use flexbraid.Crypto.Kdf.{Library, ecdh_shared, new_aead, derive_pfs_key, hkdf_expand, expand}
use flexbraid.Crypto.Replay.{new_replay_window, check_and_mark}
use flexbraid.Crypto.Replay.Refines.{NoRepeat}
use flexbraid.Session.{
  client_check_replay, ServerSession, new_server_session, new_manager, new_client_with_id,
  client_next_seq, get_session, check_replay, check_first_replay, check_first, bounded,
}
use flexbraid.Tunnel.Client.{
  open_and_verify, take_frame, TunnelClient, Uplink, written, send_locked, stamp, hello,
  handle_kex_ack, receive,
}
use flexbraid.Tunnel.Wire.{Carries, pack-Carries, unpack}
use flexbraid.Tunnel.Paths.{PathState, SessState, Settings, new_path, new_state, register}
use flexbraid.Tunnel.Server.{Server, Supply, silence, state_for, handle_client_frame}
use flexbraid.Tunnel.Handshake.{Meeting, Exchange, handshake_agrees}
use flexbraid.Tunnel.Reaches.{IsData, data_arrives}
use flexbraid.Tunnel.Once.{Arrival, decoded, decoded-NoRepeat}
use flexbraid.Tunnel.Bounded.{IsBounded}
use flexbraid.Tunnel.Tables.{handle_client_frame-IsBounded}
use flexbraid.Tunnel.Forged.{server_ignores_forged}
use flexbraid.Tunnel.Probes.{HasPlace, Probed, probe_counts_no_miss}
use flexbraid.Prelude.{
  inl, ap, ◌∙◌, Option, List, replicate, arith, ◌++◌, ◌==◌, if◌then◌else◌, ℕ, ◌+◌, ◌≤◌, ◌<◌, ◌≡◌,
  refl, ◌⊎◌, true, false, none, some, [], ◌∷◌,
}
use flexbraid.Prelude.Int.{pos}
use flexbraid.Float.{thousandths}
use flexbraid.Fec.{Params, ReedSolomon, enabled}
use flexbraid.Fec.Encoder.{Encoder, new_encoder}
use flexbraid.Fec.Redundancy.{parity_for_loss}
use flexbraid.Config.{Fec}
use flexbraid.Config.Samples.{open_net, no_fec, uplink, sparse, filled, fills_in}
use flexbraid.Tunnel.Params.{derived, fec_params_for, fit, coded, adaptive_params, pass_through}
use flexbraid.Tunnel.Announce.{
  Json, Link, Slots, announce, encoder_of, apply_announce, fec_tick_interval, no_parameters,
}
use flexbraid.Tunnel.Fits.{Fits, validated_codec}
use flexbraid.Tunnel.Agreement.{Adopted, both_ends_agree}
use flexbraid.Tunnel.Cadence.{tick_without_fec}

-- Ten data shards and three parity shards.
abbrev codec : Params thousandths
codec = coded thousandths 10 (pos 3) 8_000_000 (some (adaptive_params thousandths filled.fec))

codec_derived : fec_params_for thousandths filled.fec filled.mtu none ≡ derived codec
unfolding fec_params_for fit
codec_derived = refl

codec_enabled : enabled thousandths codec ≡ true
unfolding enabled
codec_enabled = refl

validated_codec_example :
    (2 ≤ codec.data_shards)
    × (codec.data_shards ≤ 64)
    × (0 < parity_for_loss thousandths (pos 30_000) codec)
    × (codec.data_shards + parity_for_loss thousandths (pos 30_000) codec ≤ 256)
    × ((codec.cross_path ≡ true) ⊎ ((n : ℕ) × (filled.mtu ≡ pos n) × Fits thousandths n codec))
validated_codec_example =
    validated_codec thousandths open_net sparse filled none codec (pos 30_000) fills_in
      codec_derived codec_enabled

-- A code that takes all numbers of shards.
abbrev lenient : ReedSolomon
lenient = record {
  accepts = λ k p. true;
  parity_of = λ k p shards. none;
  reconstruct = λ k p shards. none;
}

-- A format that knows one announce.
abbrev format : Json thousandths
format = record { marshal = λ a. 1 ∷ []; unmarshal = λ bytes. some (announce thousandths filled) }

-- A client's WAN before the announce, with FEC switched off.
abbrev bare : Link thousandths
bare = record {
  cfg = uplink "lte";
  enc = encoder_of thousandths lenient (pass_through thousandths 0);
  dec = none;
}

abbrev fresh : Slots thousandths
fresh = record {
  cross_path = false;
  xenc = none;
  xdec = none;
  links = bare ∷ bare ∷ [];
  mtu = pos 1280;
  adopted_fec = none;
}

codec_built : encoder_of thousandths lenient codec ≡ some codec
unfolding encoder_of new_encoder enabled
codec_built = refl

both_ends_agree_example :
    Adopted thousandths lenient codec codec filled.fec filled.mtu
      (apply_announce thousandths lenient format (1 ∷ []) fresh)
both_ends_agree_example =
    both_ends_agree thousandths lenient codec codec format open_net sparse filled fresh refl refl
      fills_in codec_derived codec_built (refl, (refl, tt))

abbrev off : Fec thousandths
off = record no_fec { enabled = false }

off_derived :
    fec_params_for thousandths off (pos 1388) (some bare.cfg) ≡ derived (pass_through thousandths 0)
unfolding fec_params_for
off_derived = refl

tick_without_fec_example : fec_tick_interval thousandths 100 fresh ≡ 4_000_000
tick_without_fec_example =
    tick_without_fec thousandths lenient off (pos 1388) 100 bare (bare ∷ []) fresh
      (pass_through thousandths 0) refl refl off_derived refl refl refl

silent : (apply_announce thousandths lenient format [] fresh).1 ≡ some no_parameters
unfolding apply_announce
silent = refl

-- A stand-in with a tag of one byte.
abbrev untag : List ℕ → Option (List ℕ)
untag [] = none
untag (x ∷ b) = if x == 7 then some b else none

abbrev tagged : Aead
tagged = record {
  overhead = 1;
  seal = λ nonce text extra. 7 ∷ text;
  open_ = λ nonce body extra. untag body;
}

tagged-IsAead : IsAead tagged
tagged-IsAead = record { opens = λ n t x. refl; grows = λ n t x. omega arith }

-- An exchange that always agrees on one byte.
abbrev libraries : Library
libraries = record {
  hmac = λ key text. replicate 32 5;
  ecdh = λ priv peer. some (9 ∷ []);
  chacha20_poly1305 = λ key. some tagged;
  aes_gcm = λ key. none;
}

abbrev half : List ℕ
half = replicate 32 1

abbrev office : TunnelClient thousandths
office = record {
  cipher = "chacha20poly1305";
  psk = 4 ∷ [];
  client_priv = half;
  client_pub = half;
  base_aead = tagged;
  sess = new_client_with_id 77;
  sess_aead = none;
  slots = fresh;
}

abbrev line : Uplink
line = record {
  path_seq = 3;
  q = none;
  last_rx = 0;
  probe_out = false;
  probe_rtt = pos 0;
  pongs = 0;
}

abbrev settings : Settings thousandths
settings = record {
  health = filled.health;
  sched_opts = record { mode = lb; affinity = packet; balance_by = by_capacity };
  balance_by = "capacity";
  capacity_cap_mbps = pos 0;
  fec_params = pass_through thousandths 0;
}

abbrev vps : Server thousandths lenient
vps = record {
  cipher = "chacha20poly1305";
  psk = 4 ∷ [];
  base_aead = tagged;
  announced = 1 ∷ [];
  settings = settings;
  mgr = new_manager;
  encoders = [];
  states = [];
}

abbrev drawn : Supply
drawn = record { keypair = some (half, half); socket = some 6 }

meeting : Meeting thousandths lenient libraries format 100 office vps
unfolding get_session check_first_replay check_first bounded check_and_mark new_replay_window
    client_next_seq new_client_with_id
meeting = record {
  cipher_law = tagged-IsAead;
  one_secret = (refl, refl, refl);
  no_key = refl;
  numbers = (omega arith, omega arith);
  half = refl;
  unknown = refl;
  room = omega arith;
  new = refl;
}

abbrev idle_encoder : Encoder thousandths lenient
idle_encoder = record {
  params = record (pass_through thousandths 0) { data_shards = 10; block_timeout = 8_000_000 };
  block = 0;
  pending = [];
  block_start = 0;
  loss_rate = pos 0;
  coding_on = true;
  coding_since = 0;
  rs_parity = 0;
  blocks_coded = 0;
}

exchange : Exchange thousandths lenient libraries format office vps drawn tagged
unfolding ecdh_shared new_aead derive_pfs_key hkdf_expand expand new_encoder enabled
exchange = record {
  priv = half;
  server_pub = half;
  shared = 9 ∷ [];
  socket = 6;
  enc = idle_encoder;
  pair = refl;
  dialed = refl;
  other_half = refl;
  agree = (refl, refl);
  keyed = refl;
  encoder = refl;
  fits = omega arith;
  adopted =
      (both_ends_agree thousandths lenient codec codec format open_net sparse filled fresh refl refl
        fills_in codec_derived codec_built (refl, (refl, tt))).succeeds;
}

handshake_agrees_example :
    (bytes : List ℕ) × (ack_bytes : List ℕ) × (sess : ServerSession) × ((send_locked
        (some tagged)
        (hello thousandths 50 office).0
        line).0
      ≡ written bytes)
    × ((handle_client_frame thousandths lenient libraries 100 8 bytes drawn vps).0.sent
        ≡ (8, ack_bytes) ∷ [])
    × (get_session 77
          (handle_client_frame thousandths lenient libraries 100 8 bytes drawn vps).1.mgr
        ≡ some sess)
    × (sess.aead ≡ tagged)
    × ((handle_kex_ack thousandths libraries lenient format ack_bytes
          (hello thousandths 50 office).1).0
        ≡ true)
    × ((handle_kex_ack thousandths libraries lenient format ack_bytes
          (hello thousandths 50 office).1).1.sess_aead
        ≡ some tagged)
unfolding new_client_with_id
handshake_agrees_example =
    handshake_agrees thousandths lenient libraries format 100 8 50 office line vps drawn tagged
      meeting exchange refl

-- A frame that is passed through, and the server that knows its session.
abbrev datagram : Frame
datagram = record {
  version = 0;
  flags = Flag.pass_seq;
  session_id = 77;
  seq = 5;
  block_seq = 0;
  payload = 10 ∷ 20 ∷ [];
}

abbrev serving : Server thousandths lenient
serving = record vps {
  mgr = record { sessions = (77, new_server_session 100 77 tagged) ∷ []; first_windows = [] };
}

datagram-IsData : IsData datagram
unfolding has_flag
datagram-IsData = record {
  in_range = record {
    flags_in = omega arith;
    session_in = omega arith;
    seq_in = omega arith;
    block_in = omega arith;
  };
  no_first = refl;
  no_keepalive = refl;
  some_bytes = omega arith;
  fits = omega arith;
}

known : get_session 77 serving.mgr ≡ some (new_server_session 100 77 tagged)
unfolding get_session
known = refl

new_seq : (check_replay 5 (new_server_session 100 77 tagged)).0 ≡ true
unfolding check_replay check_and_mark new_replay_window new_server_session
new_seq = refl

keeps_cipher : (new_server_session 100 77 tagged).aead ≡ tagged
unfolding new_server_session
keeps_cipher = refl

data_arrives_example :
    (bytes : List ℕ) × ((send_locked (some tagged) datagram line).0 ≡ written bytes)
    × ((handle_client_frame thousandths lenient libraries 200 8 bytes drawn serving).0.data_frame
        ≡ some (8, record (stamp datagram line).0 { version = version }))
data_arrives_example =
    data_arrives thousandths lenient libraries 200 8 drawn serving tagged datagram line
      (new_server_session 100 77 tagged) tagged-IsAead datagram-IsData refl (omega arith) known
      keeps_cipher new_seq

serving-IsBounded : IsBounded thousandths lenient serving
unfolding new_server_session
serving-IsBounded = record { sessions = omega arith; keyed = (refl, tt); paths = tt }

handle_client_frame-IsBounded_example :
    IsBounded thousandths lenient
      (handle_client_frame thousandths lenient libraries 200 8
        (header datagram ++ (7 ∷ 10 ∷ 20 ∷ []))
        drawn
        serving).1
handle_client_frame-IsBounded_example =
    handle_client_frame-IsBounded thousandths lenient libraries 200 8
      (header datagram ++ (7 ∷ 10 ∷ 20 ∷ [])) drawn serving serving-IsBounded

-- The same frame with another tag.
abbrev forged : List ℕ
forged = header datagram ++ (8 ∷ 10 ∷ 20 ∷ [])

no_key_opens :
    (open_ tagged client_to_server forged ≡ none) × (open_ tagged server_to_client forged ≡ none)
unfolding open_ header
no_key_opens = (refl, refl)

one_cipher :
    (id : ℕ) (sess : ServerSession)
    → get_session id serving.mgr ≡ some sess
    → open_ sess.aead client_to_server forged ≡ none
unfolding get_session new_server_session
one_cipher id sess e =
    let same : sess.aead ≡ tagged = ground arith in
    ap (λ a. open_ a client_to_server forged) same ∙ no_key_opens.0

server_ignores_forged_example :
    handle_client_frame thousandths lenient libraries 200 8 forged drawn serving
    ≡ (silence thousandths lenient, serving)
server_ignores_forged_example =
    server_ignores_forged thousandths lenient libraries 200 8 forged drawn serving no_key_opens.0
      one_cipher

-- A frame that arrives twice at a client with a key.
abbrev ready : TunnelClient thousandths
ready = record office { sess_aead = some tagged }

abbrev sealed : List ℕ
sealed =
    70 ∷ 76 ∷ 88 ∷ 66 ∷ 2 ∷ 64 ∷ 0 ∷ 0 ∷ 0 ∷ 0 ∷ 0 ∷ 0 ∷ 0 ∷ 0 ∷ 0 ∷ 77 ∷ 0 ∷ 0 ∷ 0 ∷ 5 ∷ 0 ∷ 0 ∷ 0
    ∷ 0 ∷ 0 ∷ 2 ∷ 0 ∷ 0 ∷ 7 ∷ 10 ∷ 20 ∷ []

abbrev arrivals : List Arrival
arrivals =
    record { now = 200; bytes = sealed; uplink = line }
    ∷ record { now = 201; bytes = sealed; uplink = line }
    ∷ []

arrives_once : decoded thousandths libraries lenient format arrivals ready ≡ 5 ∷ []
unfolding decoded receive open_and_verify take_frame unpack open_ decode decode_header has_flag
    client_check_replay check_and_mark new_client_with_id new_replay_window
arrives_once = refl

new_window : ready.sess.replay ≡ new_replay_window 4096
unfolding new_client_with_id
new_window = refl

decoded-NoRepeat_example : NoRepeat (decoded thousandths libraries lenient format arrivals ready)
decoded-NoRepeat_example =
    decoded-NoRepeat thousandths libraries lenient format arrivals ready (omega arith) new_window

-- A keepalive on a path whose last one is an hour old.
abbrev ping : Frame
ping = record datagram { flags = Flag.keepalive; payload = 1 ∷ 2 ∷ [] }

abbrev quiet_path : PathState thousandths
quiet_path = record (new_path thousandths settings 100 8) { last_keepalive = 100 }

abbrev watched : SessState thousandths
watched = record (new_state thousandths settings) { paths = (8, quiet_path) ∷ [] }

abbrev watching : Server thousandths lenient
watching = record serving { states = (77, watched) ∷ [] }

ping_sent : (bytes : List ℕ) × Carries tagged client_to_server ping bytes
ping_sent =
    pack-Carries tagged client_to_server ping tagged-IsAead
      (record {
        flags_in = omega arith;
        session_in = omega arith;
        seq_in = omega arith;
        block_in = omega arith;
      })
      (omega arith)

ping_flags : (has_flag ping Flag.first ≡ false) × (has_flag ping Flag.keepalive ≡ true)
unfolding has_flag
ping_flags = (refl, refl)

ping_sealed : Carries (new_server_session 100 77 tagged).aead client_to_server ping ping_sent.0
unfolding new_server_session
ping_sealed = ping_sent.1

ping_place :
    HasPlace thousandths 8
      (state_for thousandths lenient (new_server_session 100 77 tagged).id watching)
unfolding new_server_session
ping_place = inl (quiet_path, refl)

probe_counts_no_miss_example :
    Probed thousandths lenient libraries 3_600_000_000_100 8 watching
      (new_server_session 100 77 tagged).id
      (handle_client_frame thousandths lenient libraries 3_600_000_000_100 8 ping_sent.0 drawn
        watching).1
probe_counts_no_miss_example =
    probe_counts_no_miss thousandths lenient libraries 3_600_000_000_100 8 watching drawn ping
      (new_server_session 100 77 tagged) ping_sent.0 ping_sealed ping_flags.0 ping_flags.1 known
      new_seq ping_place

-- A session with one known path, and a batch of two frames.
abbrev known_path : SessState thousandths
known_path = (register thousandths settings 100 8 none (new_state thousandths settings)).1
