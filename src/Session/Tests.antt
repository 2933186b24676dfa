-- ===== src/Session/Tests.antt =====
-- The manager and the sessions at concrete tables.
use flexbraid.Prelude.{
  ℕ, ◌≤◌, List, length, false, none, ◌+◌, ◌%◌, ◌^◌, ◌≡◌, refl, ◌↔◌, false, [], ◌∷◌, arith,
  replicate,
}
use flexbraid.Assoc.{Assoc, Distinct, lookup}
use flexbraid.Crypto.Seal.{server_to_client, make_nonce}
use flexbraid.Crypto.Seal.{Aead}
use flexbraid.Session.{ServerSession, Manager, FirstWindow, opened, expire}
use flexbraid.Session.Firsts.{IsValid}
use flexbraid.Session.Replays.{firsts, firsts-bound}
use flexbraid.Session.Expiry.{Expires, lookup-expire}
use flexbraid.Session.Nonces.{after, nonce_repeats_iff}

abbrev no_windows : Assoc FirstWindow
no_windows = []

empty-IsValid : IsValid no_windows
empty-IsValid = record { distinct = tt; bound = omega arith; tracked = tt }

-- Other FIRST frames, one of them from the same client.
abbrev later_calls : List (ℕ × ℕ × ℕ)
later_calls = (101, 8, 1) ∷ (102, 7, 2) ∷ []

firsts-bound_example :
    (length (firsts later_calls no_windows) ≤ 4096) × Distinct (firsts later_calls no_windows)
firsts-bound_example = firsts-bound later_calls no_windows (omega arith) empty-IsValid

abbrev no_cipher : Aead
no_cipher = record {
  overhead = 0;
  seal = λ nonce text extra. text;
  open_ = λ nonce body extra. none;
}

abbrev session : ServerSession
session = record {
  id = 7;
  aead = no_cipher;
  server_pub = [];
  seq = 4_294_967_290;
  replay = record { window = 64; base = 0; bits = replicate 64 false ∷ [] };
  egress = opened 3;
  endpoints = [];
  last_seen = 50;
}

abbrev manager : Manager
manager = record { sessions = (7, session) ∷ []; first_windows = [] }

lookup-expire_example :
    Expires 100 20
      (lookup 7 manager.sessions)
      (lookup 7 (expire 100 20 manager).1.sessions)
      (lookup 7 (expire 100 20 manager).0)
lookup-expire_example = lookup-expire 100 20 7 manager (refl, tt)

nonce_repeats_iff_example :
    (make_nonce server_to_client (after 1 session).seq
      ≡ make_nonce server_to_client (after (1 + 2) session).seq)
    ↔ (2 % 2 ^ 32 ≡ 0)
nonce_repeats_iff_example = nonce_repeats_iff server_to_client session 1 2 (omega arith)
