-- ===== src/Session.antt =====
-- internal/session/session.go: sessions and their manager. Paths, addresses and sockets are numbers;
-- times are nanoseconds.
pub mod Firsts
pub mod Replays
pub mod Expiry
pub mod Nonces
mod Tests
use flexbraid.Prelude.{
  ℕ, zero, suc, ◌+◌, ◌-◌, ◌%◌, ◌^◌, Bool, true, false, ◌||◌, Option, none, some, List, [], ◌∷◌,
  length, ltb, leb, ◌==◌, if◌then◌else◌,
}
use flexbraid.Assoc.{Assoc, lookup, put, erase}
use flexbraid.Crypto.Replay.{ReplayWindow, new_replay_window, check_and_mark}
use flexbraid.Crypto.Seal.{Aead}

abbrev pub default_replay_window : ℕ
default_replay_window = 4096

-- `seq` is the last outgoing seq.
pub record Client : Type 0 where
  pub id : ℕ
  pub seq : ℕ
  pub replay : ReplayWindow
  pub wg_addr : Option ℕ

unfoldable pub new_client_with_id : ℕ → Client
new_client_with_id id = record {
  id = id;
  seq = 0;
  replay = new_replay_window default_replay_window;
  wg_addr = none;
}

unfoldable pub set_wg_addr : ℕ → Client → Client
set_wg_addr addr c = record c { wg_addr = some addr }

-- NextSeq and CheckReplay of a client.
unfoldable pub client_next_seq : Client → ℕ × Client
client_next_seq c = ((c.seq + 1) % 2 ^ 32, record c { seq = (c.seq + 1) % 2 ^ 32 })

unfoldable pub client_check_replay : ℕ → Client → Bool × Client
client_check_replay seq c =
    let (ok, w) = check_and_mark seq c.replay in (ok, record c { replay = w })

-- A socket that was attached, and whether it was closed.
pub data Egress : Type 0 where
  no_egress : Egress
  opened closed : ℕ → Egress

-- `aead` has the key of the session, and `server_pub` is the server's half of the exchange.
pub record ServerSession : Type 0 where
  pub id : ℕ
  pub aead : Aead
  pub server_pub : List ℕ
  pub seq : ℕ
  pub replay : ReplayWindow
  pub egress : Egress
  pub endpoints : Assoc ℕ
  pub last_seen : ℕ

unfoldable pub new_server_session : ℕ → ℕ → Aead → ServerSession
new_server_session now id aead = record {
  id = id;
  aead = aead;
  server_pub = [];
  seq = 0;
  replay = new_replay_window default_replay_window;
  egress = no_egress;
  endpoints = [];
  last_seen = now;
}

-- An atomic uint32 after `Add(1)`, which is also the result.
unfoldable pub next_seq : ServerSession → ℕ × ServerSession
next_seq s = ((s.seq + 1) % 2 ^ 32, record s { seq = (s.seq + 1) % 2 ^ 32 })

unfoldable pub check_replay : ℕ → ServerSession → Bool × ServerSession
check_replay seq s = let (ok, w) = check_and_mark seq s.replay in (ok, record s { replay = w })

unfoldable pub touch : ℕ → ServerSession → ServerSession
touch now s = record s { last_seen = now }

unfoldable pub set_egress : ℕ → ServerSession → ServerSession
set_egress socket s = record s { egress = opened socket }

abbrev pub shut : Egress → Egress
shut no_egress = no_egress
shut (opened n) = closed n
shut (closed n) = closed n

unfoldable pub close_egress : ServerSession → ServerSession
close_egress s = record s { egress = shut s.egress }

unfoldable pub set_endpoint : ℕ → ℕ → ServerSession → ServerSession
set_endpoint path addr s = record s { endpoints = put path addr s.endpoints }

pub record FirstWindow : Type 0 where
  pub win : ReplayWindow
  pub created : ℕ

abbrev pub max_first_windows : ℕ
max_first_windows = 4096

pub record Manager : Type 0 where
  pub sessions : Assoc ServerSession
  pub first_windows : Assoc FirstWindow

abbrev pub new_manager : Manager
new_manager = record { sessions = []; first_windows = [] }

-- The loop over the table, from the ID and the time found so far; the zero time is `none`.
unfoldable pub oldest : ℕ → Option ℕ → Assoc FirstWindow → ℕ
oldest id t [] = id
oldest id none ((k, v) ∷ m) = oldest k (some v.created) m
oldest id (some t) ((k, v) ∷ m) =
    let newer = oldest id (some t) m in
    let older = oldest k (some v.created) m in if ltb v.created t then older else newer

unfoldable pub bounded : Assoc FirstWindow → Assoc FirstWindow
unfolding oldest
bounded m = if leb max_first_windows (length m) then erase (oldest 0 none m) m else m

-- A window checked and stored.
abbrev pub check_in : ℕ → ℕ → FirstWindow → Assoc FirstWindow → Bool × Assoc FirstWindow
check_in id seq fw m =
    let (ok, w) = check_and_mark seq fw.win in (ok, put id (record fw { win = w }) m)

unfoldable pub check_first : ℕ → ℕ → ℕ → Assoc FirstWindow → Bool × Assoc FirstWindow
unfolding bounded
check_first now id seq m = elim (lookup id m) [
  | some fw ↦ check_in id seq fw m
  | none ↦
      check_in id seq (record { win = new_replay_window default_replay_window; created = now })
        (bounded m)
]

unfoldable pub check_first_replay : ℕ → ℕ → ℕ → Manager → Bool × Manager
check_first_replay now id seq m =
    let (ok, fws) = check_first now id seq m.first_windows in (ok, record m { first_windows = fws })

-- The entries that a test keeps, and how many it drops.
abbrev pub keep_if {ℓ} : {V : Type ℓ} → (V → Bool) → Assoc V → Assoc V
keep_if test [] = []
keep_if test ((k, v) ∷ m) = let rest = keep_if test m in if test v then (k, v) ∷ rest else rest

abbrev pub victims_of {ℓ} : {V : Type ℓ} → (V → Bool) → Assoc V → Assoc V
victims_of test [] = []
victims_of test ((k, v) ∷ m) =
    let rest = victims_of test m in if test v then rest else (k, v) ∷ rest

-- `t.Before(now.Add(-ttl))`, negated
abbrev pub recent : ℕ → ℕ → ℕ → Bool
recent now ttl t = leb now (t + ttl)

unfoldable pub expire_firsts : ℕ → ℕ → Manager → ℕ × Manager
expire_firsts now ttl m =
    let test : FirstWindow → Bool = λ fw. recent now ttl fw.created in
    (
      length (victims_of test m.first_windows),
      record m { first_windows = keep_if test m.first_windows },
    )

abbrev pub close_all_of : Assoc ServerSession → Assoc ServerSession
close_all_of [] = []
close_all_of ((k, s) ∷ m) = (k, close_egress s) ∷ close_all_of m

unfoldable pub get_session : ℕ → Manager → Option ServerSession
get_session id m = lookup id m.sessions

unfoldable pub put_session : ServerSession → Manager → Manager
put_session s m = record m { sessions = put s.id s m.sessions }

unfoldable pub delete : ℕ → Manager → Manager
delete id m = record m { sessions = erase id m.sessions }

-- The sessions that were removed, with their sockets closed, and the manager.
unfoldable pub expire : ℕ → ℕ → Manager → Assoc ServerSession × Manager
expire now ttl m =
    let test : ServerSession → Bool = λ s. recent now ttl s.last_seen in
    (close_all_of (victims_of test m.sessions), record m { sessions = keep_if test m.sessions })

unfoldable pub close_all : Manager → Assoc ServerSession × Manager
close_all m = (close_all_of m.sessions, record m { sessions = [] })
