-- ===== src/Transport/EchoTrip.antt =====
-- internal/transport/icmp.go: an echo packet is read back as it was built.
use flexbraid.Prelude.{
  ℕ, ◌+◌, ◌*◌, ◌/◌, ◌%◌, ◌^◌, ◌≤◌, ◌<◌, ◌≡◌, refl, ap, ◌∙◌, ◌↔◌, ◌⊎◌, Bool, true, false, not, ◌&&◌,
  ◌||◌, List, ◌++◌, All, arith, length, uint16-put16, ltb, ◌==◌, if-false,
}
use flexbraid.Transport.{parsed}
use flexbraid.Transport.Checksum.{
  IsByte, checksum, complement, fold, total, total-le, checksum-total, summed_is_valid,
  mangled_is_valid, fold_lem,
}
use flexbraid.Transport.Icmp.{
  echo, plain_sum, build_echo, echo_of, parse_echo, echo_request, echo_reply,
}
use flexbraid.Transport.Ip.{IsHeader, body, source, skips-append, body-append, source-append}

-- The fields of a packet that fits a datagram.
pub record IsEcho (typ id : ℕ) (payload : List ℕ) : Type 0 where
  pub kind : (typ ≡ echo_request) ⊎ (typ ≡ echo_reply)
  pub id_range : id < 2 ^ 16
  pub bytes : All IsByte payload
  pub fits : length payload ≤ 65_507

module _ (typ id seq : ℕ) (payload : List ℕ) (h : IsEcho typ id payload) where
  abbrev words : ℕ
  words = typ * 256 + (id + seq % 2 ^ 16 + total payload)

  words_small : words < 2 ^ 31
  words_small = let k = h.kind in omega (arith, total-le payload h.bytes, h.id_range, h.fits)

  total-echo : (c : ℕ) → c < 2 ^ 16 → total (echo typ id seq payload c) ≡ words + c
  unfolding total
  total-echo c small = omega (arith, h.id_range)

  echo-IsByte : (c : ℕ) → All IsByte (echo typ id seq payload c)
  echo-IsByte c =
      let k = h.kind in
      let i = h.id_range in
      (
        omega arith,
        (
          omega arith,
          (
            omega arith,
            (omega arith, (omega arith, (omega arith, (omega arith, (omega arith, h.bytes))))),
          ),
        ),
      )

  checksum-echo :
      (c : ℕ) → c < 2 ^ 16 → checksum (echo typ id seq payload c) ≡ complement (fold (words + c))
  checksum-echo c small =
      (checksum-total (echo typ id seq payload c) (echo-IsByte c) (omega (arith, h.fits))).0
      ∙ ap (λ t. complement (fold t)) (total-echo c small)

  plain_sum-words : plain_sum typ id seq payload ≡ complement (fold words)
  plain_sum-words = checksum-echo 0 (omega arith) ∙ ap (λ t. complement (fold t)) (omega arith)

  complement-fold_small : complement (fold words) < 2 ^ 16
  complement-fold_small = omega arith

  -- The checksum that build_echo fills in is valid.
  checksum-build_echo : checksum (build_echo typ id seq payload false) ≡ 0
  unfolding build_echo
  checksum-build_echo =
      ap (λ c. checksum (echo typ id seq payload c)) plain_sum-words
      ∙ checksum-echo (complement (fold words)) complement-fold_small
      ∙ summed_is_valid words words_small

  -- The mangled checksum of a request is invalid, unless the checksum itself is 0.
  pub mangled_valid_iff :
      (checksum (build_echo typ id seq payload true) ≡ 0) ↔ (plain_sum typ id seq payload ≡ 0)
  unfolding build_echo
  mangled_valid_iff =
      let (folded, _, _) = fold_lem words (omega (arith, words_small)) in
      let back : complement (complement (fold words)) ≡ fold words = omega arith in
      let e : checksum (build_echo typ id seq payload true)
          ≡ complement (fold (words + fold words)) =
        ap (λ c. checksum (echo typ id seq payload (complement c))) plain_sum-words
        ∙ ap (λ c. checksum (echo typ id seq payload c)) back
        ∙ checksum-echo (fold words) folded in
      rw (e, plain_sum-words) (mangled_is_valid words words_small)

  long : (corrupt : Bool) → 8 ≤ length (build_echo typ id seq payload corrupt)
  unfolding build_echo
  long corrupt = omega arith

  valid-build_echo :
      (corrupt : Bool)
      → (checksum (build_echo typ id seq payload corrupt) == 0)
        ≡ (not corrupt || plain_sum typ id seq payload == 0)
  valid-build_echo true = let same = mangled_valid_iff in ground (arith, same.0, same.1)
  valid-build_echo false = ap (λ x. x == 0) checksum-build_echo

  echo_of-build_echo :
      (src : List ℕ) (corrupt : Bool)
      → echo_of src (build_echo typ id seq payload corrupt)
        ≡ parsed (record {
          payload = payload;
          src = src;
          rtype = typ;
          id = id;
          cs_ok = not corrupt || plain_sum typ id seq payload == 0;
        })
  unfolding echo_of build_echo
  echo_of-build_echo src corrupt =
      let known : (not (typ == echo_request) && not (typ == echo_reply)) ≡ false =
        let k = h.kind in ground arith in
      let same : id / 256 % 256 * 256 + id % 256 ≡ id = uint16-put16 id h.id_range in
      let p = build_echo typ id seq payload corrupt in
      let nonempty : (length p == 0) ≡ false = ground arith in
      let room : ltb (length p) 8 ≡ false = ground arith in
      if-false _ _ nonempty
      ∙ if-false _ _ known
      ∙ if-false _ _ room
      ∙ rw (same, valid-build_echo corrupt) refl

  -- Behind any IP header of an unfragmented datagram, with options or without, the parser reads a
  -- packet back as it was built; its checksum is seen as valid unless it was mangled, and then
  -- too if the checksum itself is 0.
  pub parse-build_echo :
      (corrupt : Bool) (ip : List ℕ)
      → IsHeader 1 (length (build_echo typ id seq payload corrupt)) ip
      → parse_echo (ip ++ build_echo typ id seq payload corrupt)
        ≡ parsed (record {
          payload = payload;
          src = source ip;
          rtype = typ;
          id = id;
          cs_ok = not corrupt || plain_sum typ id seq payload == 0;
        })
  unfolding parse_echo
  parse-build_echo corrupt ip hdr =
      let p = build_echo typ id seq payload corrupt in
      if-false _ _ (skips-append ip p hdr 28 8 (omega arith) (long corrupt))
      ∙ ap (λ x. echo_of x (body (ip ++ p))) (source-append ip p hdr)
      ∙ ap (echo_of (source ip)) (body-append ip p hdr)
      ∙ echo_of-build_echo (source ip) corrupt
