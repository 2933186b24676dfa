-- ===== src/Transport/FakeTcp.antt =====
-- internal/transport/faketcp.go: segments that look like TCP (buildSegment, parseSegment) and the
-- counters of a peer. Random numbers are inputs, and so is the source address of a route.
use flexbraid.Prelude.{
  ℕ, ◌+◌, ◌*◌, ◌/◌, ◌%◌, ◌^◌, Bool, true, false, not, ◌&&◌, ◌||◌, List, [], ◌∷◌, ◌++◌, Option, none,
  some, length, get_or, take, drop, put16, put32, uint16, uint32, ltb, ◌==◌, if◌then◌else◌,
}
use flexbraid.Assoc.{Assoc, lookup, lookup_or, put}
use flexbraid.Transport.{Parsed, ignored, panics, parsed}
use flexbraid.Transport.Checksum.{word_sum, fold, complement, checksum}
use flexbraid.Transport.Ip.{ip_hdr_len, skips, body, source}

abbrev pub tcp_hdr_len : ℕ
tcp_hdr_len = 20

abbrev pub fin : ℕ
fin = 0x01

abbrev pub syn : ℕ
syn = 0x02

abbrev pub rst : ℕ
rst = 0x04

abbrev pub psh_ack : ℕ
psh_ack = 0x18

abbrev pub syn_ack : ℕ
syn_ack = 0x12

-- `flags&f != 0` for one bit.
abbrev pub has : ℕ → ℕ → Bool
has flags f = flags / f % 2 == 1

-- An IPv4 address.
pub record Addr : Type 0 where
  pub a : ℕ
  pub b : ℕ
  pub c : ℕ
  pub d : ℕ

abbrev pub octets : Addr → List ℕ
octets x = x.a ∷ x.b ∷ x.c ∷ x.d ∷ []

pub record Endpoint : Type 0 where
  pub addr : Addr
  pub port : ℕ

-- The pseudo-header is summed before the segment.
abbrev pub checksum_with_pseudo : List ℕ → List ℕ → List ℕ → ℕ
checksum_with_pseudo src dst tcp =
    let addresses = word_sum dst (word_sum src 0) in
    complement (fold (word_sum tcp ((addresses + 6 + length tcp) % 2 ^ 32)))

abbrev pub valid_checksum : List ℕ → List ℕ → List ℕ → Bool
valid_checksum src dst tcp =
    not (ltb (length tcp) tcp_hdr_len) && checksum_with_pseudo src dst tcp == 0

-- The headers with a number in their checksum fields.
abbrev pub ip_header : Addr → Addr → ℕ → ℕ → ℕ → List ℕ
ip_header src dst total ident c =
    0x45 ∷ 0 ∷ put16 (total % 2 ^ 16)
    ++ (put16 ident ++ (0 ∷ 0 ∷ 64 ∷ 6 ∷ put16 c ++ (octets src ++ octets dst)))

abbrev pub tcp_segment : ℕ → ℕ → ℕ → ℕ → ℕ → List ℕ → ℕ → List ℕ
tcp_segment src_port dst_port seq ack flags payload c =
    put16 src_port
    ++ (put16 dst_port
        ++ (put32 seq
            ++ (put32 ack ++ (80 ∷ flags ∷ put16 65_535 ++ (put16 c ++ (0 ∷ 0 ∷ payload))))))

unfoldable pub build_ip : Addr → Addr → ℕ → ℕ → List ℕ
build_ip src dst total ident =
    ip_header src dst total ident (checksum (ip_header src dst total ident 0))

unfoldable pub build_tcp : Endpoint → Endpoint → ℕ → ℕ → ℕ → List ℕ → List ℕ
build_tcp src dst seq ack flags payload =
    let tcp = tcp_segment src.port dst.port seq ack flags payload in
    tcp (checksum_with_pseudo (octets src.addr) (octets dst.addr) (tcp 0))

-- `ident` is the random number of the IP header.
unfoldable pub build_segment : ℕ → Endpoint → Endpoint → ℕ → ℕ → ℕ → List ℕ → List ℕ
build_segment ident src dst seq ack flags payload =
    build_ip src.addr dst.addr (ip_hdr_len + tcp_hdr_len + length payload) ident
    ++ build_tcp src dst seq ack flags payload

pub record Segment : Type 0 where
  pub payload : List ℕ
  pub src : List ℕ
  pub src_port : ℕ
  pub dst_port : ℕ
  pub syn : Bool
  pub seq : ℕ

-- `tcp[13]` panics where the slice is shorter.
unfoldable pub segment_of : List ℕ → List ℕ → List ℕ → Parsed Segment
segment_of src dst tcp =
    let flags = get_or tcp 13 0 in
    let off = get_or tcp 12 0 / 16 * 4 in
    if ltb (length tcp) 14
    then panics
    else if has flags rst || has flags fin
    then ignored
    else if not (valid_checksum src dst tcp)
    then ignored
    else if ltb off tcp_hdr_len || ltb (length tcp) off
    then ignored
    else parsed (record {
      payload = drop off tcp;
      src = src;
      src_port = uint16 tcp 0;
      dst_port = uint16 tcp 2;
      syn = has flags syn;
      seq = uint32 tcp 4;
    })

unfoldable pub parse_segment : List ℕ → Parsed Segment
parse_segment b =
    let read = segment_of (source b) (take 4 (drop 16 b)) (body b) in
    if skips ip_hdr_len tcp_hdr_len 6 b then ignored else read

-- The counters of one remote endpoint.
pub record PeerState : Type 0 where
  pub my_seq : ℕ
  pub peer_seq : ℕ
  pub sent : Bool

abbrev pub new_peer : ℕ → PeerState
new_peer rand = record { my_seq = rand; peer_seq = 0; sent = false }

abbrev pub seq_advance : ℕ → ℕ
seq_advance n = if ltb 0 n then n % 2 ^ 32 else 1

-- Send and SendTo: the segment to a peer, whose first one has the flags `opening`.
unfoldable pub emit : ℕ → ℕ → Endpoint → Endpoint → List ℕ → PeerState → List ℕ × PeerState
emit opening ident src dst payload st = (
  build_segment ident src dst st.my_seq st.peer_seq (if st.sent then psh_ack else opening) payload,
  record st { my_seq = (st.my_seq + seq_advance (length payload)) % 2 ^ 32; sent = true },
)

-- The acknowledgement that Recv keeps for the next segment to the peer.
unfoldable pub track : Segment → PeerState → PeerState
track g st = record st {
  peer_seq =
      if g.syn then (g.seq + 1) % 2 ^ 32 else (g.seq + seq_advance (length g.payload)) % 2 ^ 32;
}

-- The peers of a transport. A key is 0 for the server of a client, and otherwise one more than the
-- address and the port as a number.
pub record FakeTcp : Type 0 where
  pub srv : Bool
  pub client_dst : Endpoint
  pub client_src : Endpoint
  pub server_port : ℕ
  pub peers : Assoc PeerState

abbrev pub number : List ℕ → ℕ → ℕ
number src port = uint32 src 0 * 2 ^ 16 + port + 1

-- Send, to the server; `none` is the error of a transport that is not open.
unfoldable pub send : ℕ → List ℕ → FakeTcp → Option (List ℕ × FakeTcp)
send ident payload f = elim (lookup 0 f.peers) [
  | none ↦ none
  | some st ↦
      (let (segment, st') = emit syn ident f.client_src f.client_dst payload st in
        some (segment, record f { peers = put 0 st' f.peers }))
]

-- SendTo, from the source address `src` of the route to the peer; `rand` starts a new peer.
unfoldable pub send_to : ℕ → ℕ → Addr → Endpoint → List ℕ → FakeTcp → List ℕ × FakeTcp
send_to rand ident src to payload f =
    let key = number (octets to.addr) to.port in
    let st = lookup_or (new_peer rand) key f.peers in
    let from : Endpoint = record { addr = src; port = f.server_port } in
    let (segment, st') = emit syn_ack ident from to payload st in
    (segment, record f { peers = put key st' f.peers })

unfoldable pub note : ℕ → ℕ → Segment → FakeTcp → FakeTcp
note rand key g f = record f {
  peers = put key (track g (lookup_or (new_peer rand) key f.peers)) f.peers;
}

-- Recv for one datagram; the loop goes on after one that is ignored.
unfoldable pub recv : ℕ → List ℕ → FakeTcp → Parsed (Segment × FakeTcp)
recv rand b f = elim (parse_segment b) [
  | panics ↦ panics
  | ignored ↦ ignored
  | parsed g ↦
      (let from_server = uint32 g.src 0 == uint32 (octets f.client_dst.addr) 0 in
        if f.srv
        then if g.dst_port == f.server_port
          then parsed (g, note rand (number g.src g.src_port) g f)
          else ignored
        else if g.dst_port == f.client_src.port && from_server
        then parsed (g, note rand 0 g f)
        else ignored)
]
