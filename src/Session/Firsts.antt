-- ===== src/Session/Firsts.antt =====
-- internal/session/session.go: the table of handshake windows stays bounded and valid.
use mathlib.Core.Path.{subst}
use flexbraid.Prelude.{
  ℕ, ◌^◌, ◌≤◌, ◌<◌, ◌≡◌, refl, sym, ◌⊎◌, none, some, List, [], ◌∷◌, length, ltb, leb, ◌==◌, arith,
  All, Bool-cases, Option-cases, inl, inr, if-true, if-false,
}
use flexbraid.Assoc.{
  length-put-le, length-put_of_some, Assoc, lookup, put, Distinct, Distinct-erase, lookup-put,
  length-erase_of_some, All-erase, All-lookup, lookup-cons_here, lookup-cons_there,
}
use flexbraid.Crypto.Replay.{new_replay_window, check_and_mark}
use flexbraid.Crypto.Replay.Window.{Tracks}
use flexbraid.Crypto.Replay.Refines.{check_and_mark-Tracks, new-Tracks}
use flexbraid.Session.{
  FirstWindow, oldest, bounded, check_first, max_first_windows, default_replay_window,
}

-- The window of an entry is one that CheckAndMark has led to.
abbrev pub IsTracked : ℕ × FirstWindow → Type 0
IsTracked e = (seen : List ℕ) × Tracks default_replay_window seen e.1.win

pub record IsValid (m : Assoc FirstWindow) : Type 0 where
  pub distinct : Distinct m
  pub bound : length m ≤ max_first_windows
  pub tracked : All IsTracked m

-- The loop ends at a key of the table.
oldest-lookup :
    (id : ℕ) (t : ℕ) (m : Assoc FirstWindow)
    → (oldest id (some t) m ≡ id) ⊎ ((v : FirstWindow) × (lookup (oldest id (some t) m) m ≡ some v))
unfolding oldest
oldest-lookup id t [] = inl refl
oldest-lookup id t ((k, v) ∷ m) = elim (Bool-cases (ltb v.created t)) [
  | inl older ↦ subst IsIn (sym (if-true _ _ older)) (elim (oldest-lookup k v.created m) [
    | inl e ↦ inr (lookup-cons_here k (oldest k (some v.created) m) v m e)
    | inr (u, e) ↦ inr (lookup-cons_there k (oldest k (some v.created) m) v u m e)
  ])
  | inr newer ↦ subst IsIn (sym (if-false _ _ newer)) (elim (oldest-lookup id t m) [
    | inl e ↦ inl e
    | inr (u, e) ↦ inr (lookup-cons_there k (oldest id (some t) m) v u m e)
  ])
]
  where
    IsIn : ℕ → Type 0
    IsIn r = (r ≡ id) ⊎ ((u : FirstWindow) × (lookup r ((k, v) ∷ m) ≡ some u))

oldest-held :
    (m : Assoc FirstWindow)
    → 0 < length m
    → (v : FirstWindow) × (lookup (oldest 0 none m) m ≡ some v)
unfolding oldest
oldest-held [] h = absurd (omega arith)
oldest-held ((k, v) ∷ m) h = elim (oldest-lookup k v.created m) [
  | inl e ↦ lookup-cons_here k (oldest k (some v.created) m) v m e
  | inr (u, e) ↦ lookup-cons_there k (oldest k (some v.created) m) v u m e
]

Distinct-put : (k : ℕ) (v : FirstWindow) (m : Assoc FirstWindow) → Distinct m → Distinct (put k v m)
Distinct-put k v [] d = (refl, tt)
Distinct-put k v ((j, w) ∷ m) d = elim (Bool-cases (j == k)) [
  | inl e ↦ (let same : j ≡ k = ground arith in rw e (subst (λ i. lookup i m ≡ none) same d.0, d.1))
  | inr e ↦ rw e (ground (arith, lookup-put k j v m, d.0), Distinct-put k v m d.1)
]

IsTracked-put :
    (k : ℕ) (v : FirstWindow) (m : Assoc FirstWindow)
    → IsTracked (k, v)
    → All IsTracked m
    → All IsTracked (put k v m)
IsTracked-put k v [] t h = (t, tt)
IsTracked-put k v ((j, w) ∷ m) t h = elim (Bool-cases (j == k)) [
  | inl e ↦ rw e (t, h.1)
  | inr e ↦ rw e (h.0, IsTracked-put k v m t h.1)
]

-- There is room for one more entry, and what is kept is as it was.
bounded-IsValid :
    (m : Assoc FirstWindow)
    → IsValid m
    → IsValid (bounded m) × (length (bounded m) < max_first_windows)
unfolding bounded
bounded-IsValid m v = elim (Bool-cases (leb max_first_windows (length m))) [
  | inl full ↦
      (let (u, held) = oldest-held m (ground arith) in
        let less = length-erase_of_some (oldest 0 none m) m u held in
        rw (full, bounded)
          (
            record {
              distinct = Distinct-erase (oldest 0 none m) m v.distinct;
              bound = omega (arith, less, v.bound);
              tracked = All-erase IsTracked (oldest 0 none m) m v.tracked;
            },
            omega (arith, less, v.bound),
          ))
  | inr room ↦ rw (room, bounded) (v, ground arith)
]

-- CheckFirstReplay keeps at most 4096 windows, whatever IDs and seqs arrive, with no ID twice and every
-- window in order.
pub check_first-IsValid :
    (now id seq : ℕ) (m : Assoc FirstWindow)
    → seq < 2 ^ 32
    → IsValid m
    → IsValid (check_first now id seq m).1
unfolding check_first
check_first-IsValid now id seq m hs v = elim (Option-cases (lookup id m)) [
  | inr (fw, e) ↦
      (let (seen, t) = All-lookup IsTracked id m fw v.tracked e in
        rw (e, check_first)
          (record {
            distinct = Distinct-put id _ m v.distinct;
            bound = omega (
              arith,
              length-put_of_some id (record fw { win = (check_and_mark seq fw.win).1 }) fw m e,
              v.bound,
            );
            tracked =
                IsTracked-put id _ m (_, check_and_mark-Tracks seq 4096 seen fw.win t hs) v.tracked;
          }))
  | inl e ↦
      (let (b, room) = bounded-IsValid m v in
        let w = new_replay_window 4096 in
        let t = check_and_mark-Tracks seq 4096 [] w (new-Tracks 4096 (omega arith)) hs in
        rw (e, check_first)
          (record {
            distinct = Distinct-put id _ (bounded m) b.distinct;
            bound = omega (
              arith,
              length-put-le id (record { win = (check_and_mark seq w).1; created = now })
                  (bounded m),
              room,
            );
            tracked = IsTracked-put id _ (bounded m) (_, t) b.tracked;
          }))
]
