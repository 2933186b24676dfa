-- ===== src/Transport/SegmentTrip.antt =====
-- internal/transport/faketcp.go: a segment is read back as it was built.
use flexbraid.Prelude.{
  ℕ, ◌+◌, ◌%◌, ◌^◌, ◌≤◌, ◌<◌, ◌≡◌, refl, ap, ◌∙◌, false, not, ◌||◌, List, ◌++◌, All, All-append,
  arith, length, part-append, take, drop, uint16-put16, uint32-put32, ltb, if-false,
}
use flexbraid.Crypto.Seal.{take-append, drop-append}
use flexbraid.Transport.{parsed}
use flexbraid.Transport.Checksum.{
  IsByte, checksum, checksum-total, word_sum, word_sum-total, complement, fold, total, total-le,
  summed_is_valid,
}
use flexbraid.Transport.Ip.{IsHeader, body, source, skips-append, body-append, source-append}
use flexbraid.Transport.FakeTcp.{
  octets, Endpoint, ip_header, checksum_with_pseudo, valid_checksum, tcp_segment, build_ip,
  build_tcp, build_segment, Segment, segment_of, parse_segment, has, fin, syn, rst,
}

abbrev pub IsEndpoint : Endpoint → Type 0
IsEndpoint e = All IsByte (octets e.addr) × (e.port < 2 ^ 16)

-- The arguments of a segment that fits a datagram and is neither RST nor FIN.
pub record IsSegment (src dst : Endpoint) (seq ack flags : ℕ) (payload : List ℕ) : Type 0 where
  pub from : IsEndpoint src
  pub to : IsEndpoint dst
  pub numbers : (seq < 2 ^ 32) × (ack < 2 ^ 32) × (flags < 256)
  pub open_flags : (has flags rst ≡ false) × (has flags fin ≡ false)
  pub bytes : All IsByte payload
  pub fits : length payload ≤ 65_495

module _ (src dst : Endpoint) (seq ack flags : ℕ) (payload : List ℕ)
    (h : IsSegment src dst seq ack flags payload) where
  abbrev segment : ℕ → List ℕ
  segment c = tcp_segment src.port dst.port seq ack flags payload c

  segment-IsByte : (c : ℕ) → All IsByte (segment c)
  segment-IsByte c =
      let n = h.numbers in All-append IsByte (take 20 (segment c)) payload (omega arith) h.bytes

  abbrev words : ℕ
  words =
      total (octets src.addr) + total (octets dst.addr) + 6 + length (segment 0) + total (segment 0)

  total-segment : (c : ℕ) → c < 2 ^ 16 → total (segment c) ≡ total (segment 0) + c
  unfolding total
  total-segment c small = omega arith

  checksum-segment :
      (c : ℕ)
      → c < 2 ^ 16
      → checksum_with_pseudo (octets src.addr) (octets dst.addr) (segment c)
        ≡ complement (fold (words + c))
  checksum-segment c small =
      let source : word_sum (octets src.addr) 0 ≡ total (octets src.addr) =
        word_sum-total (octets src.addr) 0 h.from.0 (omega arith) ∙ omega arith in
      let target : word_sum (octets dst.addr) (total (octets src.addr))
          ≡ total (octets src.addr) + total (octets dst.addr) =
        word_sum-total (octets dst.addr) (total (octets src.addr)) h.to.0
          (omega (arith, total-le (octets src.addr) h.from.0)) in
      let start = total (octets src.addr) + total (octets dst.addr) + 6 + length (segment c) in
      let small_start : start < 2 ^ 20 =
        omega
          (arith, total-le (octets src.addr) h.from.0, total-le (octets dst.addr) h.to.0, h.fits) in
      let all : word_sum (segment c) (start % 2 ^ 32) ≡ words + c =
        ap (word_sum (segment c)) (omega arith)
        ∙ word_sum-total (segment c) start (segment-IsByte c) (omega (arith, h.fits))
        ∙ omega (arith, total-segment c small) in
      rw (source, target) (ap (λ n. complement (fold n)) all)

  words_small : words < 2 ^ 31
  words_small = omega (
    arith,
    total-le (octets src.addr) h.from.0,
    total-le (octets dst.addr) h.to.0,
    total-le (segment 0) (segment-IsByte 0),
    h.fits,
  )

  checksum-build_tcp :
      checksum_with_pseudo
        (octets src.addr)
        (octets dst.addr)
        (build_tcp src dst seq ack flags payload)
      ≡ 0
  unfolding build_tcp
  checksum-build_tcp =
      let plain : checksum_with_pseudo (octets src.addr) (octets dst.addr) (segment 0)
          ≡ complement (fold words) =
        checksum-segment 0 (omega arith) ∙ ap (λ n. complement (fold n)) (omega arith) in
      ap (λ c. checksum_with_pseudo (octets src.addr) (octets dst.addr) (segment c)) plain
      ∙ checksum-segment (complement (fold words)) (omega arith)
      ∙ summed_is_valid words words_small

  abbrev pub read_back : List ℕ → Segment
  read_back from = record {
    payload = payload;
    src = from;
    src_port = src.port;
    dst_port = dst.port;
    syn = has flags syn;
    seq = seq;
  }

  segment_of-build_tcp :
      segment_of (octets src.addr) (octets dst.addr) (build_tcp src dst seq ack flags payload)
      ≡ parsed (read_back (octets src.addr))
  unfolding segment_of build_tcp
  segment_of-build_tcp =
      let p = build_tcp src dst seq ack flags payload in
      let room : ltb (length p) 14 ≡ false = ground arith in
      let keeps : (has flags rst || has flags fin) ≡ false = let f = h.open_flags in ground arith in
      let sum = checksum-build_tcp in
      let valid : (not (valid_checksum (octets src.addr) (octets dst.addr) p)) ≡ false =
        ground arith in
      let offset : (ltb 20 20 || ltb (length p) 20) ≡ false = ground arith in
      if-false _ _ room
      ∙ if-false _ _ keeps
      ∙ if-false _ _ valid
      ∙ if-false _ _ offset
      ∙ rw
          (
            uint16-put16 src.port h.from.1,
            uint16-put16 dst.port h.to.1,
            uint32-put32 seq h.numbers.0,
          )
          refl

  build_ip-IsHeader :
      (ident : ℕ)
      → IsHeader 6
          (length (build_tcp src dst seq ack flags payload))
          (build_ip src.addr dst.addr (20 + 20 + length payload) ident)
  unfolding build_ip build_tcp
  build_ip-IsHeader ident = record {
    long = omega arith;
    words = refl;
    version = refl;
    carries = refl;
    whole = refl;
    counts = omega (arith, h.fits);
  }

  addresses :
      (ident : ℕ)
      → let ip = build_ip src.addr dst.addr (20 + 20 + length payload) ident in
        (source ip ≡ octets src.addr) × (take 4 (drop 16 ip) ≡ octets dst.addr)
  unfolding build_ip
  addresses ident = (refl, refl)

  abbrev ip_words : ℕ → ℕ → ℕ
  ip_words ident c = total (ip_header src.addr dst.addr (20 + 20 + length payload) ident c)

  ip_words-add : (ident c : ℕ) → c < 2 ^ 16 → ip_words ident c ≡ ip_words ident 0 + c
  unfolding total
  ip_words-add ident c small = omega arith

  checksum-ip_header :
      (ident c : ℕ)
      → ident < 2 ^ 16
      → c < 2 ^ 16
      → (checksum (ip_header src.addr dst.addr (20 + 20 + length payload) ident c)
          ≡ complement (fold (ip_words ident 0 + c)))
        × (ip_words ident 0 < 2 ^ 31)
  checksum-ip_header ident c small_id small =
      let hdr = ip_header src.addr dst.addr (20 + 20 + length payload) in
      let bytes : (x : ℕ) → x < 2 ^ 16 → All IsByte (hdr ident x) =
        λ x below. omega (arith, h.from.0, h.to.0) in
      (
        (checksum-total (hdr ident c) (bytes c small) (omega arith)).0
            ∙ ap (λ n. complement (fold n)) (ip_words-add ident c small),
        omega (arith, total-le (hdr ident 0) (bytes 0 (omega arith))),
      )

  -- The checksum over the IP header, its field included, comes out as the one of a valid header.
  checksum-build_ip :
      (ident : ℕ)
      → ident < 2 ^ 16
      → checksum (build_ip src.addr dst.addr (20 + 20 + length payload) ident) ≡ 0
  unfolding build_ip
  checksum-build_ip ident small =
      let hdr = ip_header src.addr dst.addr (20 + 20 + length payload) in
      let (plain, below) = checksum-ip_header ident 0 small (omega arith) in
      let plain' : checksum (hdr ident 0) ≡ complement (fold (ip_words ident 0)) =
        plain ∙ ap (λ n. complement (fold n)) (omega arith) in
      ap (λ c. checksum (hdr ident c)) plain'
      ∙ (checksum-ip_header ident (complement (fold (ip_words ident 0))) small (omega arith)).0
      ∙ summed_is_valid (ip_words ident 0) below

  length-build_ip :
      (ident : ℕ) → length (build_ip src.addr dst.addr (20 + 20 + length payload) ident) ≡ 20
  unfolding build_ip
  length-build_ip ident = refl

  long : 20 ≤ length (build_tcp src dst seq ack flags payload)
  unfolding build_tcp
  long = omega arith

  -- The receiver reads the payload, the ports, the source and the sequence number that the sender
  -- put into a segment.
  pub parse-built :
      (ident : ℕ)
      → parse_segment (build_segment ident src dst seq ack flags payload)
        ≡ parsed (read_back (octets src.addr))
  unfolding parse_segment build_segment
  parse-built ident =
      let ip = build_ip src.addr dst.addr (20 + 20 + length payload) ident in
      let p = build_tcp src dst seq ack flags payload in
      let hdr = build_ip-IsHeader ident in
      let (from, to) = addresses ident in
      if-false _ _ (skips-append ip p hdr 20 20 (omega arith) long)
      ∙ ap (λ x. segment_of x (take 4 (drop 16 (ip ++ p))) (body (ip ++ p)))
          (source-append ip p hdr ∙ from)
      ∙ ap (λ x. segment_of (octets src.addr) x (body (ip ++ p)))
          (part-append 4 16 ip p (omega (arith, hdr.long)) ∙ to)
      ∙ ap (segment_of (octets src.addr) (octets dst.addr)) (body-append ip p hdr)
      ∙ segment_of-build_tcp

  -- The receiver reads the payload, the ports, the source and the sequence number that the sender
  -- put into a segment; and both checksums, of the IP header and of the segment behind the pseudo-header,
  -- verify. The segment fits a datagram, its fields are in range, and it is neither RST nor FIN.
  pub parse-build_segment :
      (ident : ℕ)
      → ident < 2 ^ 16
      → let b = build_segment ident src dst seq ack flags payload in
        (parse_segment b ≡ parsed (read_back (octets src.addr)))
        × (checksum (take 20 b) ≡ 0)
        × (checksum_with_pseudo (octets src.addr) (octets dst.addr) (drop 20 b) ≡ 0)
  unfolding build_segment
  parse-build_segment ident small =
      let ip = build_ip src.addr dst.addr (20 + 20 + length payload) ident in
      let p = build_tcp src dst seq ack flags payload in
      let size = length-build_ip ident in
      (
        parse-built ident,
        ap checksum (take-append ip p 20 size) ∙ checksum-build_ip ident small,
        ap (checksum_with_pseudo (octets src.addr) (octets dst.addr)) (drop-append ip p 20 size)
            ∙ checksum-build_tcp,
      )
