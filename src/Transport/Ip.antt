-- ===== src/Transport/Ip.antt =====
-- internal/transport/icmp.go, internal/transport/faketcp.go: a datagram as the parsers take it apart,
-- an IPv4 header before its payload.
use flexbraid.Prelude.{
  ℕ, ◌+◌, ◌-◌, length-take, length-drop, ◌*◌, ◌/◌, ◌%◌, ◌^◌, ◌≤◌, ◌<◌, ◌≡◌, refl, sym, ap, ◌∙◌,
  List, ◌++◌, arith, length, length-append, get_or, get_or-append, drop-append, part-append, take,
  drop, take_all, uint16, ltb, ◌==◌, Bool, not, ◌||◌, false, if◌then◌else◌,
}

abbrev pub ip_hdr_len : ℕ
ip_hdr_len = 20

-- `int(b[0]&0x0f) * 4`
abbrev pub header_len : List ℕ → ℕ
header_len b = get_or b 0 0 % 16 * 4

-- The total length field, or all that was read if it is 0 or more than that.
abbrev pub total_len : List ℕ → ℕ
total_len b =
    let field = uint16 b 2 in if field == 0 || ltb (length b) field then length b else field

-- Whether a datagram is skipped: it is shorter than `least`, not IPv4, has no room for its header and
-- `hdr` bytes more, carries another protocol, or is a fragment.
unfoldable pub skips : ℕ → ℕ → ℕ → List ℕ → Bool
skips least hdr protocol b =
    let n = length b in
    let ihl = header_len b in
    ltb n least
    || not (get_or b 0 0 / 16 == 4)
    || ltb ihl ip_hdr_len
    || ltb n (ihl + hdr)
    || not (get_or b 9 0 == protocol)
    || not (uint16 b 6 % 2 ^ 13 == 0)

-- `b[ihl:total]`, empty where Go panics because `total` is less than `ihl`.
unfoldable pub body : List ℕ → List ℕ
body b = drop (header_len b) (take (total_len b) b)

abbrev pub source : List ℕ → List ℕ
source b = take 4 (drop 12 b)

-- A header with its options, of an unfragmented datagram with `n` bytes of payload.
pub record IsHeader (protocol n : ℕ) (ip : List ℕ) : Type 0 where
  pub long : 20 ≤ length ip
  pub words : header_len ip ≡ length ip
  pub version : get_or ip 0 0 / 16 ≡ 4
  pub carries : get_or ip 9 0 ≡ protocol
  pub whole : uint16 ip 6 % 2 ^ 13 ≡ 0
  pub counts : uint16 ip 2 ≡ length ip + n

module _ {protocol : ℕ} (ip p : List ℕ) (h : IsHeader protocol (length p) ip) where
  pub at-append : (i : ℕ) → i < 20 → get_or (ip ++ p) i 0 ≡ get_or ip i 0
  at-append i below = get_or-append ip p i 0 (omega (arith, h.long))

  pub uint16-append : (i : ℕ) → i < 19 → uint16 (ip ++ p) i ≡ uint16 ip i
  uint16-append i below =
      let a = at-append i (omega arith) in let b = at-append (i + 1) (omega arith) in rw (a, b) refl

  pub header_len-append : header_len (ip ++ p) ≡ length ip
  header_len-append = rw (at-append 0 (omega arith)) h.words

  pub total_len-append : total_len (ip ++ p) ≡ length (ip ++ p)
  total_len-append =
      let e : uint16 (ip ++ p) 2 ≡ length (ip ++ p) =
        uint16-append 2 (omega arith) ∙ h.counts ∙ sym (length-append ip p) in
      ground arith

  pub skips-append :
      (least hdr : ℕ)
      → least ≤ 20 + hdr
      → hdr ≤ length p
      → skips least hdr protocol (ip ++ p) ≡ false
  unfolding skips
  skips-append least hdr small room =
      let long = h.long in
      let size = length-append ip p in
      let ihl = header_len-append in
      let version : get_or (ip ++ p) 0 0 / 16 ≡ 4 = rw (at-append 0 (omega arith)) h.version in
      let carries : get_or (ip ++ p) 9 0 ≡ protocol = at-append 9 (omega arith) ∙ h.carries in
      let whole : uint16 (ip ++ p) 6 % 2 ^ 13 ≡ 0 = rw (uint16-append 6 (omega arith)) h.whole in
      ground arith

  pub body-append : body (ip ++ p) ≡ p
  unfolding body
  body-append = rw (header_len-append, total_len-append, take_all (ip ++ p)) (drop-append ip p)

  pub source-append : source (ip ++ p) ≡ source ip
  source-append = part-append 4 12 ip p (omega (arith, h.long))

pub total_len-le : (b : List ℕ) → total_len b ≤ length b
total_len-le b = ground arith

pub length-body : (b : List ℕ) → length (body b) ≡ total_len b - header_len b
unfolding body
length-body b =
    length-drop (header_len b) (take (total_len b) b)
    ∙ ap (λ n. n - header_len b) (length-take (total_len b) b ∙ omega (arith, total_len-le b))
