-- ===== src/Crypto/Kdf.antt =====
-- internal/crypto/crypto.go, internal/crypto/pfs.go: the keys of the handshake and of a session.
use Prim.Native.String.{String}
use text.Mathlib.Text.{◌==◌ as str_eq}
use flexbraid.Prelude.{
  ℕ, zero, suc, ◌+◌, ◌%◌, ◌≤◌, ◌<◌, ◌≡◌, ◌∙◌, Option, none, some, List, [], ◌∷◌, ◌++◌, length,
  length-append, length-take, take, put64, ltb, ◌==◌, ◌||◌, not, if◌then◌else◌, arith,
}
use flexbraid.Crypto.Seal.{Aead}

abbrev pub key_size : ℕ
key_size = 32

abbrev pub public_key_size : ℕ
public_key_size = 32

-- The libraries of package crypto and golang.org/x/crypto; `none` is an error. A key that NewPrivateKey
-- or NewPublicKey refuses makes `ecdh` fail.
pub record Library : Type 0 where
  -- HMAC-SHA256 of a message under a key.
  pub hmac : List ℕ → List ℕ → List ℕ
  pub ecdh : List ℕ → List ℕ → Option (List ℕ)
  pub chacha20_poly1305 : List ℕ → Option Aead
  pub aes_gcm : List ℕ → Option Aead

-- The strings "flexbraid-v1", "channel-key" and "pfs-session:".
abbrev pub salt_v1 : List ℕ
salt_v1 = 102 ∷ 108 ∷ 101 ∷ 120 ∷ 98 ∷ 114 ∷ 97 ∷ 105 ∷ 100 ∷ 45 ∷ 118 ∷ 49 ∷ []

abbrev pub channel_info : List ℕ
channel_info = 99 ∷ 104 ∷ 97 ∷ 110 ∷ 110 ∷ 101 ∷ 108 ∷ 45 ∷ 107 ∷ 101 ∷ 121 ∷ []

abbrev pub pfs_info : List ℕ
pfs_info = 112 ∷ 102 ∷ 115 ∷ 45 ∷ 115 ∷ 101 ∷ 115 ∷ 115 ∷ 105 ∷ 111 ∷ 110 ∷ 58 ∷ []

module _ (lib : Library) where
  -- The loop of hkdfExpand, on fuel; `counter` is a byte.
  unfoldable pub expand : ℕ → List ℕ → List ℕ → ℕ → ℕ → List ℕ → List ℕ → List ℕ
  expand zero prk info n counter t out = out
  expand (suc fuel) prk info n counter t out =
      let t' = lib.hmac prk (t ++ info ++ (counter ∷ [])) in
      let rest = expand fuel prk info n ((counter + 1) % 256) t' (out ++ t') in
      if ltb (length out) n then rest else out

  unfoldable pub hkdf_expand : List ℕ → List ℕ → ℕ → List ℕ
  hkdf_expand prk info n = take n (expand n prk info n 1 [] [])

  abbrev pub derive : List ℕ → List ℕ → List ℕ → List ℕ
  derive psk salt info = hkdf_expand (lib.hmac salt psk) info key_size

  unfoldable pub derive_key : List ℕ → Option (List ℕ)
  derive_key psk = if length psk == 0 then none else some (derive psk salt_v1 channel_info)

  -- The pre-shared key is the salt here.
  unfoldable pub derive_pfs_key : List ℕ → List ℕ → ℕ → List ℕ
  derive_pfs_key psk shared id = derive shared psk (pfs_info ++ put64 id)

  unfoldable pub ecdh_shared : List ℕ → List ℕ → Option (List ℕ)
  ecdh_shared priv peer_pub =
      if not (length priv == public_key_size)
      then none
      else if not (length peer_pub == public_key_size)
      then none
      else lib.ecdh priv peer_pub

  unfoldable pub new_aead : List ℕ → String → Option Aead
  new_aead key name =
      if not (length key == key_size)
      then none
      else if str_eq name "" || str_eq name "chacha20poly1305"
      then lib.chacha20_poly1305 key
      else if str_eq name "aes256gcm"
      then lib.aes_gcm key
      else none

  module _ (grows : (key text : List ℕ) → 0 < length (lib.hmac key text)) where
    -- Each round adds a byte at least, so that as many rounds as bytes are wanted end the loop.
    length-expand :
        (fuel : ℕ) (prk info : List ℕ) (n counter : ℕ) (t out : List ℕ)
        → n ≤ fuel + length out
        → n ≤ length (expand fuel prk info n counter t out)
    unfolding expand
    length-expand zero prk info n counter t out h = omega arith
    length-expand (suc fuel) prk info n counter t out h =
        let t' = lib.hmac prk (t ++ info ++ (counter ∷ [])) in
        let longer = length-append out t' in
        let some_byte = grows prk (t ++ info ++ (counter ∷ [])) in
        ground
          (arith, length-expand fuel prk info n ((counter + 1) % 256) t' (out ++ t') (omega arith))

    -- The expansion ends, with exactly as many bytes as are asked for.
    pub length-hkdf_expand : (prk info : List ℕ) (n : ℕ) → length (hkdf_expand prk info n) ≡ n
    unfolding hkdf_expand
    length-hkdf_expand prk info n =
        let enough = length-expand n prk info n 1 [] [] (omega arith) in
        length-take n (expand n prk info n 1 [] []) ∙ omega arith

    -- Whatever the secrets are, the key of a session has the length that NewAEAD wants, so that the
    -- default cipher is built from it.
    pub new_aead-derive_pfs_key :
        (psk shared : List ℕ) (id : ℕ)
        → new_aead (derive_pfs_key psk shared id) "chacha20poly1305"
          ≡ lib.chacha20_poly1305 (derive_pfs_key psk shared id)
    unfolding new_aead derive_pfs_key
    new_aead-derive_pfs_key psk shared id =
        let right : length (derive_pfs_key psk shared id) ≡ 32 =
          length-hkdf_expand (lib.hmac psk shared) (pfs_info ++ put64 id) 32 in
        ground arith
