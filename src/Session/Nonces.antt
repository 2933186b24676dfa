-- ===== src/Session/Nonces.antt =====
-- internal/session/session.go, internal/crypto/crypto.go: the seqs that a session hands out, and the nonces
-- of its frames.
use flexbraid.Prelude.{ℕ, zero, suc, ◌+◌, ◌%◌, ◌^◌, ◌<◌, ◌≡◌, ap, ◌∙◌, ◌↔◌, arith}
use flexbraid.Crypto.Seal.{Direction, make_nonce, make_nonce_inj}
use flexbraid.Session.{ServerSession, next_seq}

-- The session after `n` calls of NextSeq.
unfoldable pub after : ℕ → ServerSession → ServerSession
after zero s = s
after (suc n) s = after n (next_seq s).1

after-seq : (n : ℕ) (s : ServerSession) → s.seq < 2 ^ 32 → (after n s).seq ≡ (s.seq + n) % 2 ^ 32
unfolding after next_seq
after-seq zero s h = omega arith
after-seq (suc n) s h = after-seq n (next_seq s).1 (omega arith) ∙ omega arith

nonce-seq :
    (dir : Direction) (m n : ℕ)
    → m < 2 ^ 32
    → n < 2 ^ 32
    → (make_nonce dir m ≡ make_nonce dir n) ↔ (m ≡ n)
nonce-seq dir m n hm hn =
    ((λ p. (make_nonce_inj dir dir m n hm hn p).1), (λ e. ap (make_nonce dir) e))

seqs_agree_iff : (s i d : ℕ) → ((s + i) % 2 ^ 32 ≡ (s + (i + d)) % 2 ^ 32) ↔ (d % 2 ^ 32 ≡ 0)
seqs_agree_iff s i d = ((λ e. omega arith), (λ e. omega arith))

-- The nonces of two frames of a session, numbered by two calls of NextSeq, agree exactly if the calls
-- are a multiple of 2 ^ 32 apart.
pub nonce_repeats_iff :
    (dir : Direction) (s : ServerSession) (i d : ℕ)
    → s.seq < 2 ^ 32
    → (make_nonce dir (after i s).seq ≡ make_nonce dir (after (i + d) s).seq) ↔ (d % 2 ^ 32 ≡ 0)
nonce_repeats_iff dir s i d h =
    rw (after-seq i s h, after-seq (i + d) s h)
      (let (to, from) =
          nonce-seq dir ((s.seq + i) % 2 ^ 32) ((s.seq + (i + d)) % 2 ^ 32) (omega arith)
            (omega arith) in
        let (there, back) = seqs_agree_iff s.seq i d in ((λ p. there (to p)), (λ e. from (back e))))
