-- ===== src/Crypto/Tests.antt =====
-- The replay window and the sealing of frames at concrete frames.
use flexbraid.Crypto.Kdf.{Library, hkdf_expand, length-hkdf_expand}
use flexbraid.Prelude.{
  length, none, ℕ, ◌≡◌, refl, true, false, Option, none, some, List, [], ◌∷◌, arith,
}
use flexbraid.Frame.{Frame}
use flexbraid.Crypto.Replay.{new_replay_window, check_and_mark}
use flexbraid.Crypto.Replay.Refines.{answers, promised, answers_refine}
use flexbraid.Crypto.Seal.{Aead, IsAead}

abbrev frames : List ℕ
frames = 5 ∷ 3 ∷ 5 ∷ 200 ∷ 3 ∷ 137 ∷ []

answers-frames :
    answers frames (new_replay_window 64) ≡ true ∷ true ∷ false ∷ true ∷ false ∷ true ∷ []
unfolding answers new_replay_window check_and_mark
answers-frames = refl

answers_refine_example : answers frames (new_replay_window 64) ≡ promised 64 frames []
answers_refine_example =
    answers_refine 64 frames (omega arith)
      (omega arith, (omega arith, (omega arith, (omega arith, (omega arith, (omega arith, tt))))))

-- A stand-in with a tag of one byte.
abbrev untag : List ℕ → Option (List ℕ)
untag [] = none
untag (x ∷ b) = some b

abbrev tagged : Aead
tagged = record {
  overhead = 1;
  seal = λ nonce text extra. 7 ∷ text;
  open_ = λ nonce body extra. untag body;
}

tagged-IsAead : IsAead tagged
tagged-IsAead = record { opens = λ n t x. refl; grows = λ n t x. omega arith }

abbrev sample : Frame
sample = record {
  version = 2;
  flags = 0;
  session_id = 9;
  seq = 5;
  block_seq = 1;
  payload = 10 ∷ 20 ∷ [];
}

-- Libraries with a hash of three bytes and no ciphers.
abbrev short_hash : Library
short_hash = record {
  hmac = λ key text. 1 ∷ 2 ∷ 3 ∷ [];
  ecdh = λ priv peer. none;
  chacha20_poly1305 = λ key. none;
  aes_gcm = λ key. none;
}

length-hkdf_expand_example : length (hkdf_expand short_hash frames (5 ∷ []) 32) ≡ 32
length-hkdf_expand_example =
    length-hkdf_expand short_hash (λ key text. omega arith) frames (5 ∷ []) 32
