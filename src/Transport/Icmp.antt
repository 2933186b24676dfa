-- ===== src/Transport/Icmp.antt =====
-- internal/transport/icmp.go: echo packets (buildEcho, parseEcho, reqICMPOffset, sendEchoReply).
use flexbraid.Prelude.{
  ℕ, ◌+◌, ◌%◌, ◌^◌, Bool, not, ◌&&◌, ◌||◌, List, ◌∷◌, ◌++◌, Option, none, some, length, get_or,
  take, drop, put16, uint16, ltb, ◌==◌, if◌then◌else◌,
}
use flexbraid.Transport.{Parsed, ignored, panics, parsed}
use flexbraid.Transport.Ip.{ip_hdr_len, header_len, skips, body, source}
use flexbraid.Transport.Checksum.{checksum, complement}

abbrev pub icmp_hdr_len : ℕ
icmp_hdr_len = 8

abbrev pub echo_reply : ℕ
echo_reply = 0

abbrev pub echo_request : ℕ
echo_request = 8

-- A packet with a number in its checksum field.
abbrev pub echo : ℕ → ℕ → ℕ → List ℕ → ℕ → List ℕ
echo typ id seq payload c = typ ∷ 0 ∷ put16 c ++ (put16 id ++ (put16 (seq % 2 ^ 16) ++ payload))

-- The checksum before it is mangled.
abbrev pub plain_sum : ℕ → ℕ → ℕ → List ℕ → ℕ
plain_sum typ id seq payload = checksum (echo typ id seq payload 0)

unfoldable pub build_echo : ℕ → ℕ → ℕ → List ℕ → Bool → List ℕ
build_echo typ id seq payload corrupt =
    let c = plain_sum typ id seq payload in
    echo typ id seq payload (if corrupt then complement c else c)

-- The source address is its four bytes.
pub record Echo : Type 0 where
  pub payload : List ℕ
  pub src : List ℕ
  pub rtype : ℕ
  pub id : ℕ
  pub cs_ok : Bool

-- `icmp[0]` panics where the slice is empty, and `icmp[8:]` where it has less than 8 bytes.
unfoldable pub echo_of : List ℕ → List ℕ → Parsed Echo
echo_of src icmp =
    let rtype = get_or icmp 0 0 in
    if length icmp == 0
    then panics
    else if not (rtype == echo_request) && not (rtype == echo_reply)
    then ignored
    else if ltb (length icmp) icmp_hdr_len
    then panics
    else parsed (record {
      payload = drop icmp_hdr_len icmp;
      src = src;
      rtype = rtype;
      id = uint16 icmp 4;
      cs_ok = checksum icmp == 0;
    })

unfoldable pub parse_echo : List ℕ → Parsed Echo
parse_echo b =
    let read = echo_of (source b) (body b) in
    if skips (ip_hdr_len + icmp_hdr_len) icmp_hdr_len 1 b then ignored else read

-- `none` is -1.
unfoldable pub req_icmp_offset : List ℕ → Option ℕ
req_icmp_offset b =
    let ihl = header_len b in
    if ltb (length b) ip_hdr_len
    then none
    else if ltb ihl ip_hdr_len || ltb (length b) (ihl + icmp_hdr_len)
    then none
    else some ihl

-- The reply mirrors the id and the sequence number of the request that `b` begins with.
unfoldable pub echo_reply_to : List ℕ → List ℕ → Option (List ℕ)
echo_reply_to b reply = elim (req_icmp_offset b) [
  | none ↦ none
  | some o ↦
      (let with_sum = λ (c : ℕ).
          echo_reply ∷ get_or b (o + 1) 0 ∷ put16 c ++ (take 4 (drop (o + 4) b) ++ reply) in
        some (with_sum (checksum (with_sum 0))))
]
