-- ===== src/Crypto/Seal.antt =====
-- internal/crypto/crypto.go: sealing and opening frames with an AEAD.
use flexbraid.Prelude.{
  ℕ, zero, suc, ◌+◌, ◌^◌, ◌≤◌, ◌<◌, ◌≡◌, refl, ap, ◌∙◌, sym, false, Option, none, some, List, [],
  ◌∷◌, ◌++◌, length, take, drop, get_or, ltb, if◌then◌else◌, arith, put32, uint32, uint32-put32,
  length-append, length-take,
}
use flexbraid.Frame.{Frame, IsFrame, ok, encode, decode, max_payload, version}
use flexbraid.Frame.RoundTrip.{decode-encode}

-- crypto/cipher.AEAD under one key. `none` is an error.
pub record Aead : Type 0 where
  pub overhead : ℕ
  -- Seal and Open of a nonce, a text and the additional data.
  pub seal : List ℕ → List ℕ → List ℕ → List ℕ
  pub open_ : List ℕ → List ℕ → List ℕ → Option (List ℕ)

-- The documented behaviour of an AEAD: what was sealed opens under the same nonce and data, and is
-- longer than the text by the overhead.
pub record IsAead (a : Aead) : Type 0 where
  pub opens :
      (nonce text extra : List ℕ) → a.open_ nonce (a.seal nonce text extra) extra ≡ some text
  pub grows :
      (nonce text extra : List ℕ) → length (a.seal nonce text extra) ≡ length text + a.overhead

pub data Direction : Type 0 where
  client_to_server server_to_client : Direction

abbrev pub direction_byte : Direction → ℕ
direction_byte client_to_server = 0
direction_byte server_to_client = 1

unfoldable pub make_nonce : Direction → ℕ → List ℕ
make_nonce dir seq = 0 ∷ 0 ∷ 0 ∷ 0 ∷ direction_byte dir ∷ 0 ∷ 0 ∷ 0 ∷ put32 seq

-- The seq field of a header.
unfoldable pub frame_seq : List ℕ → ℕ
frame_seq h = uint32 h 16

module _ (a : Aead) where
  unfoldable pub seal : Direction → List ℕ → Option (List ℕ)
  seal dir plaintext =
      let h = take 28 plaintext in
      let payload = drop 28 plaintext in
      if ltb (length plaintext) 28
      then none
      else some (h ++ a.seal (make_nonce dir (frame_seq h)) payload h)

  unfoldable pub open_ : Direction → List ℕ → Option (List ℕ)
  open_ dir sealed =
      let h = take 28 sealed in
      if ltb (length sealed) (28 + a.overhead)
      then none
      else elim (a.open_ (make_nonce dir (frame_seq h)) (drop 28 sealed) h) [
        | none ↦ none
        | some payload ↦ some (h ++ payload)
      ]

pub take-append : (h b : List ℕ) (n : ℕ) → length h ≡ n → take n (h ++ b) ≡ h
take-append [] b n e = rw⁻¹ e refl
take-append (x ∷ h) b zero e = absurd (omega arith)
take-append (x ∷ h) b (suc n) e = ap (λ l. x ∷ l) (take-append h b n (omega arith))

pub drop-append : (h b : List ℕ) (n : ℕ) → length h ≡ n → drop n (h ++ b) ≡ b
drop-append [] b n e = rw⁻¹ e refl
drop-append (x ∷ h) b zero e = absurd (omega arith)
drop-append (x ∷ h) b (suc n) e = drop-append h b n (omega arith)

pub take_drop : (n : ℕ) (b : List ℕ) → take n b ++ drop n b ≡ b
take_drop zero b = refl
take_drop (suc n) [] = refl
take_drop (suc n) (x ∷ b) = ap (λ l. x ∷ l) (take_drop n b)

-- What is sealed in a direction opens in it, to the same header and payload, if the text has a
-- header at all.
pub open-seal :
    (a : Aead) (dir : Direction) (text : List ℕ)
    → IsAead a
    → 28 ≤ length text
    → (sealed : List ℕ) × (seal a dir text ≡ some sealed) × (open_ a dir sealed ≡ some text)
unfolding seal open_
open-seal a dir text law long =
    let h = take 28 text in
    let nonce = make_nonce dir (frame_seq h) in
    let body = a.seal nonce (drop 28 text) h in
    let len : length h ≡ 28 = omega (arith, length-take 28 text) in
    let given : ltb (length text) 28 ≡ false = ground arith in
    let room : ltb (length (h ++ body)) (28 + a.overhead) ≡ false =
      ground (arith, length-append h body, law.grows nonce (drop 28 text) h, len) in
    (
      h ++ body,
      rw given refl,
      rw
          (
            room,
            take-append h body 28 len,
            drop-append h body 28 len,
            law.opens nonce (drop 28 text) h,
          )
          (rw (take-append h body 28 len) (ap some (take_drop 28 text))),
    )

direction_byte_inj : (d e : Direction) → direction_byte d ≡ direction_byte e → d ≡ e
direction_byte_inj client_to_server client_to_server p = refl
direction_byte_inj client_to_server server_to_client p = absurd (omega arith)
direction_byte_inj server_to_client client_to_server p = absurd (omega arith)
direction_byte_inj server_to_client server_to_client p = refl

-- No two frames of a key share a nonce, if the seqs of each direction are used once.
pub make_nonce_inj :
    (d e : Direction) (m n : ℕ)
    → m < 2 ^ 32
    → n < 2 ^ 32
    → make_nonce d m ≡ make_nonce e n
    → (d ≡ e) × (m ≡ n)
unfolding make_nonce
make_nonce_inj d e m n hm hn p = (
  direction_byte_inj d e (ap (λ (l : List ℕ). get_or l 4 0) p),
  sym (uint32-put32 m hm) ∙ ap (λ (l : List ℕ). uint32 l 8) p ∙ uint32-put32 n hn,
)

-- A frame that was encoded and sealed is opened and decoded to the same frame, with the version that
-- Encode sets.
pub decode-open :
    (a : Aead) (dir : Direction) (f : Frame)
    → IsAead a
    → IsFrame f
    → length f.payload ≤ max_payload
    → (b : List ℕ) × (sealed : List ℕ) × (encode f ≡ ok b)
      × (seal a dir b ≡ some sealed)
      × (open_ a dir sealed ≡ some b)
      × (decode b ≡ ok (record f { version = version }))
decode-open a dir f law v fits =
    let (b, encoded, len, back) = decode-encode f v fits in
    let (sealed, s, o) = open-seal a dir b law (omega arith) in (b, sealed, encoded, s, o, back)
