-- ===== src/Session/Replays.antt =====
-- internal/session/session.go: a FIRST frame that was let through is not let through again.
use flexbraid.Prelude.{ℕ, ◌^◌, ◌≤◌, ◌<◌, ◌≡◌, Bool, true, some, List, [], ◌∷◌, length, All}
use flexbraid.Assoc.{Assoc, Distinct, lookup}
use flexbraid.Crypto.Replay.{new_replay_window, check_and_mark}
use flexbraid.Crypto.Replay.Window.{Tracks, has}
use flexbraid.Session.{FirstWindow, check_first, default_replay_window}
use flexbraid.Session.Firsts.{IsValid, check_first-IsValid}

-- Calls of CheckFirstReplay, each with its time, ID and seq.
unfoldable pub firsts : List (ℕ × ℕ × ℕ) → Assoc FirstWindow → Assoc FirstWindow
firsts [] m = m
firsts ((now, id, seq) ∷ calls) m = firsts calls (check_first now id seq m).1

abbrev pub Seqs : List (ℕ × ℕ × ℕ) → Type 0
Seqs calls = All (λ c. c.2 < 2 ^ 32) calls

firsts-IsValid :
    (calls : List (ℕ × ℕ × ℕ)) (m : Assoc FirstWindow)
    → Seqs calls
    → IsValid m
    → IsValid (firsts calls m)
unfolding firsts
firsts-IsValid [] m h v = v
firsts-IsValid ((now, id, seq) ∷ calls) m h v =
    firsts-IsValid calls (check_first now id seq m).1 h.1 (check_first-IsValid now id seq m h.0 v)

-- However many FIRST frames arrive, with whatever IDs and seqs: a valid table has at most 4096 windows
-- afterwards, and no ID twice.
pub firsts-bound :
    (calls : List (ℕ × ℕ × ℕ)) (m : Assoc FirstWindow)
    → Seqs calls
    → IsValid m
    → (length (firsts calls m) ≤ 4096) × Distinct (firsts calls m)
firsts-bound calls m h v = let v' = firsts-IsValid calls m h v in (v'.bound, v'.distinct)

-- The window under `id` has let `seq` through.
record Remembers (id seq : ℕ) (m : Assoc FirstWindow) : Type 0 where
  held : FirstWindow
  seen : List ℕ
  found : lookup id m ≡ some held
  tracks : Tracks default_replay_window seen held.win
  marked : has seq seen ≡ true

abbrev marked_in : ℕ → FirstWindow → FirstWindow
marked_in seq fw = record fw { win = (check_and_mark seq fw.win).1 }

abbrev fresh_at : ℕ → FirstWindow
fresh_at now = record { win = new_replay_window default_replay_window; created = now }

abbrev answer : Bool × Assoc FirstWindow → Bool
answer (b, m) = b
