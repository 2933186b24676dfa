-- ===== src/Transport/Tests.antt =====
-- internal/transport: runs and witnesses.
use flexbraid.Prelude.{
  take, drop, ℕ, ◌+◌, ◌≤◌, ◌<◌, ◌≡◌, refl, ◌↔◌, ◌⊎◌, inl, true, false, not, ◌||◌, some, List, [],
  ◌∷◌, ◌++◌, replicate, length, get_or, arith, ◌==◌,
}
use flexbraid.Assoc.{lookup_or}
use flexbraid.Transport.{panics, parsed}
use flexbraid.Transport.Checksum.{
  word_sum, fold_loop, checksum, complement, reference, checksum-reference,
}
use flexbraid.Transport.Ip.{IsHeader, skips, body, source, header_len, total_len}
use flexbraid.Transport.Icmp.{plain_sum, build_echo, echo_of, parse_echo, echo_request, echo_reply}
use flexbraid.Transport.EchoTrip.{IsEcho, parse-build_echo}
use flexbraid.Transport.Panics.{parse_echo-panics_iff}
use flexbraid.Transport.ReplyQueue.{Queues, queue_of, bytes_of, send_to, drain_replies, made_room}
use flexbraid.Transport.Replies.{IsCounted, IsFilled, size, drain_replies_lem}
use flexbraid.Transport.FakeTcp.{
  octets, Endpoint, FakeTcp, Segment, new_peer, number, build_segment, parse_segment, send, recv,
  checksum_with_pseudo, psh_ack,
}
use flexbraid.Transport.SegmentTrip.{IsSegment, parse-build_segment}
use flexbraid.Transport.Acks.{acks_follow}

abbrev large : ℕ
large = 200_000

-- The example of RFC 1071.
abbrev rfc1071 : List ℕ
rfc1071 = 0x00 ∷ 0x01 ∷ 0xf2 ∷ 0x03 ∷ 0xf4 ∷ 0xf5 ∷ 0xf6 ∷ 0xf7 ∷ []

rfc1071_sum : checksum rfc1071 ≡ complement 0xddf2
unfolding word_sum fold_loop
rfc1071_sum = refl

checksum-reference_example : checksum rfc1071 ≡ reference rfc1071
checksum-reference_example = checksum-reference rfc1071 (omega arith) (omega arith)

-- A header for three bytes in an echo: 31 bytes in all.
abbrev header : List ℕ
header =
    0x45 ∷ 0 ∷ 0 ∷ 31 ∷ 7 ∷ 7 ∷ 0x40 ∷ 0 ∷ 64 ∷ 1 ∷ 0 ∷ 0 ∷ 10 ∷ 0 ∷ 0 ∷ 1 ∷ 10 ∷ 0 ∷ 0 ∷ 2 ∷ []

abbrev three : List ℕ
three = 1 ∷ 2 ∷ 3 ∷ []

header-IsHeader : IsHeader 1 (length (build_echo echo_request 77 5 three true)) header
unfolding build_echo
header-IsHeader = record {
  long = omega arith;
  words = refl;
  version = refl;
  carries = refl;
  whole = refl;
  counts = refl;
}

three-IsEcho : IsEcho echo_request 77 three
three-IsEcho = record {
  kind = inl refl;
  id_range = omega arith;
  bytes = omega arith;
  fits = omega arith;
}

parse-build_echo_example :
    parse_echo (header ++ build_echo echo_request 77 5 three true)
    ≡ parsed (record {
      payload = three;
      src = source header;
      rtype = echo_request;
      id = 77;
      cs_ok = not true || plain_sum echo_request 77 5 three == 0;
    })
parse-build_echo_example =
    parse-build_echo echo_request 77 5 three three-IsEcho true header header-IsHeader

-- A request whose checksum is 0 gets the checksum 65535, which is valid too.
abbrev unlucky : List ℕ
unlucky = 0xf7 ∷ 0xff ∷ []

unlucky_sum : plain_sum echo_request 0 0 unlucky ≡ 0
unfolding word_sum fold_loop
unlucky_sum = refl

unlucky-IsEcho : IsEcho echo_request 0 unlucky
unlucky-IsEcho = record {
  kind = inl refl;
  id_range = omega arith;
  bytes = omega arith;
  fits = omega arith;
}

-- A total length field of 24 leaves four bytes of ICMP header.
abbrev cut : List ℕ
cut =
    0x45 ∷ 0 ∷ 0 ∷ 24 ∷ 7 ∷ 7 ∷ 0 ∷ 0 ∷ 64 ∷ 1 ∷ replicate 10 0
    ++ (8 ∷ 0 ∷ 0 ∷ 0 ∷ 0 ∷ 0 ∷ 0 ∷ 0 ∷ [])

cut_panics : parse_echo cut ≡ panics
unfolding parse_echo echo_of skips body
cut_panics = refl

parse_echo-panics_iff_example : (parse_echo cut ≡ panics) ↔ (
    (skips 28 8 1 cut ≡ false)
    × ((total_len cut ≤ header_len cut)
        ⊎ ((total_len cut < header_len cut + 8)
            × ((get_or (body cut) 0 0 ≡ echo_request) ⊎ (get_or (body cut) 0 0 ≡ echo_reply)))))
parse_echo-panics_iff_example = parse_echo-panics_iff cut

abbrev idle : Queues
idle = record { reply_queue = (4, three ∷ []) ∷ []; queue_bytes = (4, 3) ∷ [] }

idle-IsCounted : (IsCounted 4 idle) × (IsCounted 9 idle)
unfolding size
idle-IsCounted = (refl, refl)

drain_replies_lem_example :
    IsFilled (queue_of 4 idle) [] (drain_replies 4 idle).0
    × (queue_of 4 (drain_replies 4 idle).1 ≡ [])
drain_replies_lem_example = drain_replies_lem 4 idle

-- One small frame makes way for a large one, so that the books exceed the bound of 1 MiB.
abbrev crowded : Queues
crowded = record { reply_queue = (4, (7 ∷ []) ∷ []) ∷ []; queue_bytes = (4, 1_048_576) ∷ [] }

outgrown : bytes_of 4 (send_to 4 three crowded) ≡ 1_048_578
unfolding send_to made_room
outgrown = refl

abbrev office : Endpoint
office = record { addr = record { a = 10; b = 0; c = 0; d = 1 }; port = 40_000 }

abbrev vps : Endpoint
vps = record { addr = record { a = 203; b = 0; c = 113; d = 9 }; port = 4500 }

abbrev client : FakeTcp
client = record {
  srv = false;
  client_dst = vps;
  client_src = office;
  server_port = 0;
  peers = (0, record { my_seq = 900; peer_seq = 4_000_000_000; sent = true }) ∷ [];
}

abbrev server : FakeTcp
server = record client { srv = true; server_port = 4500; peers = [] }

three-IsSegment : IsSegment office vps 900 4_000_000_000 psh_ack three
three-IsSegment = record {
  from = omega arith;
  to = omega arith;
  numbers = omega arith;
  open_flags = (refl, refl);
  bytes = omega arith;
  fits = omega arith;
}

parse-build_segment_example :
    let b = build_segment 1 office vps 900 4_000_000_000 psh_ack three in
    (parse_segment b
      ≡ parsed (record {
        payload = three;
        src = octets office.addr;
        src_port = 40_000;
        dst_port = 4500;
        syn = false;
        seq = 900;
      }))
    × (checksum (take 20 b) ≡ 0)
    × (checksum_with_pseudo (octets office.addr) (octets vps.addr) (drop 20 b) ≡ 0)
parse-build_segment_example =
    parse-build_segment office vps 900 4_000_000_000 psh_ack three three-IsSegment 1 (omega arith)

acks_follow_example :
    (bytes : List ℕ) × (c' : FakeTcp) × (g : Segment) × (s' : FakeTcp) × (send 1 three client
      ≡ some (bytes, c'))
    × (recv 5 bytes server ≡ parsed (g, s'))
    × (g.payload ≡ three)
    × ((lookup_or (new_peer 5) (number (octets office.addr) 40_000) s'.peers).peer_seq
        ≡ (lookup_or (new_peer 5) 0 c'.peers).my_seq)
acks_follow_example =
    acks_follow 1 5 three client server
      (record { my_seq = 900; peer_seq = 4_000_000_000; sent = true }) refl refl refl refl
      three-IsSegment
