-- ===== src/Tunnel/Wire.antt =====
-- internal/frame/frame.go, internal/crypto/crypto.go: a frame on its way, as both ends of the tunnel
-- encode, seal, open and decode it.
use flexbraid.Prelude.{
  Option-cases, inl, inr, ℕ, ◌+◌, ◌≤◌, ◌<◌, ◌≡◌, refl, ap, ◌∙◌, sym, Option, none, some, List, [],
  ◌++◌, length, arith, take, drop, get_or, get_or-append, length-take, length-append, uint32, ltb,
  false, if-false,
}
use flexbraid.Frame.{
  Result, Frame, IsFrame, ok, err, encode, decode, decode_header, max_payload, version,
}
use flexbraid.Frame.RoundTrip.{decode-encode}
use flexbraid.Crypto.Seal.{
  Aead, IsAead, Direction, seal, open_, make_nonce, frame_seq, take_drop, decode-open,
}

some_inj : {A : Type 0} {x y : A} → some x ≡ some y → x ≡ y
some_inj h = ground arith

ok_inj : {A : Type 0} {x y : A} → ok x ≡ ok y → x ≡ y
ok_inj h = ground arith

-- A round by cases of the header that it reads.
pub header_cases :
    {B : Type 0} (P : B → Type 0) (r : Result Frame) (x : B) (f : Frame → B)
    → P x
    → ((hdr : Frame) → P (f hdr))
    → P (elim r as (λ _. B) [ err e ↦ x | ok hdr ↦ f hdr ])
header_cases P (err e) x f here there = here
header_cases P (ok hdr) x f here there = there hdr

pub elim-ok :
    {B : Type 0} {r : Result Frame} (x : B) (f : Frame → B) {hdr : Frame}
    → r ≡ ok hdr
    → (elim r as (λ _. B) [ err e ↦ x | ok h ↦ f h ]) ≡ f hdr
elim-ok x f e = rw e refl

-- A round that does nothing on every header does nothing.
pub elim-header :
    {B : Type 0} (r : Result Frame) (x : B) (f : Frame → B)
    → ((hdr : Frame) → f hdr ≡ x)
    → (elim r as (λ _. B) [ err e ↦ x | ok hdr ↦ f hdr ]) ≡ x
elim-header r x f h = header_cases (λ y. y ≡ x) r x f refl h

-- Encode and Seal; `none` is the error of either.
unfoldable pub pack : Aead → Direction → Frame → Option (List ℕ)
pack a dir f = elim (encode f) [ err e ↦ none | ok plain ↦ seal a dir plain ]

-- Open and Decode, in this order.
unfoldable pub unpack : Aead → Direction → List ℕ → Option Frame
unpack a dir sealed = elim (open_ a dir sealed) [
  | none ↦ none
  | some plain ↦ elim (decode plain) [ err e ↦ none | ok f ↦ some f ]
]

pack-encode :
    (a : Aead) (dir : Direction) (f : Frame) (b : List ℕ)
    → encode f ≡ ok b
    → pack a dir f ≡ seal a dir b
unfolding pack
pack-encode a dir f b e = rw (pack, e) refl

unpack-decode :
    (a : Aead) (dir : Direction) (sealed b : List ℕ) {f : Frame}
    → open_ a dir sealed ≡ some b
    → decode b ≡ ok f
    → unpack a dir sealed ≡ some f
unfolding unpack
unpack-decode a dir sealed b opened e = rw (unpack, opened, e) refl

pub unpack-none :
    (a : Aead) (dir : Direction) (sealed : List ℕ)
    → open_ a dir sealed ≡ none
    → unpack a dir sealed ≡ none
unfolding unpack
unpack-none a dir sealed e = rw (unpack, e) refl

pub unpack-parts :
    (a : Aead) (dir : Direction) (sealed : List ℕ) (f : Frame)
    → unpack a dir sealed ≡ some f
    → (plain : List ℕ) × (open_ a dir sealed ≡ some plain) × (decode plain ≡ ok f)
unfolding unpack
unpack-parts a dir sealed f e = elim (Option-cases (open_ a dir sealed)) [
  | inl shut ↦ absurd (ground (arith, unpack-none a dir sealed shut))
  | inr (plain, opened) ↦ (plain, opened, ground arith)
]

-- Decoding reads the header first.
decode-header :
    (b : List ℕ) {f : Frame} → decode b ≡ ok f → decode_header b ≡ ok (record f { payload = [] })
unfolding decode decode_header
decode-header b h = ground arith

module _ (h r : List ℕ) (size : length h ≡ 28) where
  at-append : (i : ℕ) → i < 28 → get_or (h ++ r) i 0 ≡ get_or h i 0
  at-append i below = get_or-append h r i 0 (omega (arith, size))

  uint32-append : (i : ℕ) → i < 25 → uint32 (h ++ r) i ≡ uint32 h i
  uint32-append i below =
      let a = at-append i (omega arith) in
      let b = at-append (i + 1) (omega arith) in
      let c = at-append (i + 2) (omega arith) in
      let d = at-append (i + 3) (omega arith) in rw (a, b, c, d) refl

  -- A header is read without what follows it.
  pub decode_header-append : decode_header (h ++ r) ≡ decode_header h
  unfolding decode_header
  decode_header-append =
      let long : ltb (length (h ++ r)) 28 ≡ false = ground (arith, length-append h r, size) in
      let short : ltb (length h) 28 ≡ false = ground (arith, size) in
      rw
        (
          long,
          short,
          uint32-append 0 (omega arith),
          uint32-append 8 (omega arith),
          uint32-append 12 (omega arith),
          uint32-append 16 (omega arith),
          uint32-append 20 (omega arith),
          at-append 4 (omega arith),
          at-append 5 (omega arith),
        )
        refl

-- Sealing leaves the header readable.
decode_header-seal :
    (a : Aead) (dir : Direction) (b sealed : List ℕ)
    → 28 ≤ length b
    → seal a dir b ≡ some sealed
    → decode_header sealed ≡ decode_header b
unfolding seal
decode_header-seal a dir b sealed long s =
    let h = take 28 b in
    let size : length h ≡ 28 = omega (arith, length-take 28 b) in
    let given : ltb (length b) 28 ≡ false = ground arith in
    let same : h ++ a.seal (make_nonce dir (frame_seq h)) (drop 28 b) h ≡ sealed =
      some_inj (sym (if-false _ _ given) ∙ s) in
    ap decode_header (sym same)
    ∙ decode_header-append h _ size
    ∙ sym (decode_header-append h (drop 28 b) size)
    ∙ ap decode_header (take_drop 28 b)

-- A frame on its way: what carries it has its header in the clear and opens to the frame, with the
-- version that Encode sets.
pub record Carries (a : Aead) (dir : Direction) (f : Frame) (sealed : List ℕ) : Type 0 where
  pub packed : pack a dir f ≡ some sealed
  pub header : decode_header sealed ≡ ok (record f { version = version; payload = [] })
  pub unpacked : unpack a dir sealed ≡ some (record f { version = version })

pub pack-Carries :
    (a : Aead) (dir : Direction) (f : Frame)
    → IsAead a
    → IsFrame f
    → length f.payload ≤ max_payload
    → (sealed : List ℕ) × Carries a dir f sealed
pack-Carries a dir f law v fits =
    let (b, sealed, encoded, s, opened, back) = decode-open a dir f law v fits in
    let (b', encoded', len, _) = decode-encode f v fits in
    let same : b' ≡ b = ok_inj (sym encoded' ∙ encoded) in
    let long : 28 ≤ length b = rw (← same) (omega (arith, len)) in
    (
      sealed,
      record {
        packed = pack-encode a dir f b encoded ∙ s;
        header = decode_header-seal a dir b sealed long s ∙ decode-header b back;
        unpacked = unpack-decode a dir sealed b opened back;
      },
    )

-- An opened text begins with the header in the clear.
open_-header :
    (a : Aead) (dir : Direction) (sealed plain : List ℕ)
    → open_ a dir sealed ≡ some plain
    → (28 ≤ length sealed) × (payload : List ℕ) × (plain ≡ take 28 sealed ++ payload)
unfolding open_
open_-header a dir sealed plain e =
    elim (Option-cases
      (a.open_ (make_nonce dir (frame_seq (take 28 sealed))) (drop 28 sealed) (take 28 sealed))) [
        | inl refused ↦ absurd (ground arith)
        | inr (payload, opened) ↦ (ground arith, payload, ground arith)
      ]

decode-seq : (b : List ℕ) {f : Frame} → decode b ≡ ok f → f.seq ≡ uint32 b 16
unfolding decode decode_header
decode-seq b e = ground arith

-- The number of an opened frame is the one in the clear.
pub unpack-seq :
    (a : Aead) (dir : Direction) (sealed : List ℕ) (f : Frame)
    → unpack a dir sealed ≡ some f
    → f.seq ≡ uint32 sealed 16
unpack-seq a dir sealed f e =
    let (plain, opened, decoded) = unpack-parts a dir sealed f e in
    let (long, payload, begins) = open_-header a dir sealed plain opened in
    let h = take 28 sealed in
    let size : length h ≡ 28 = omega (arith, length-take 28 sealed) in
    decode-seq plain decoded
    ∙ ap (λ b. uint32 b 16) begins
    ∙ uint32-append h payload size 16 (omega arith)
    ∙ sym (uint32-append h (drop 28 sealed) size 16 (omega arith))
    ∙ ap (λ b. uint32 b 16) (take_drop 28 sealed)
