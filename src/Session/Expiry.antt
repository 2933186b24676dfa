-- ===== src/Session/Expiry.antt =====
-- internal/session/session.go: Expire removes the idle sessions, and only those.
use mathlib.Core.Path.{subst}
use flexbraid.Prelude.{
  ℕ, ◌+◌, ◌≤◌, ◌<◌, ◌⊎◌, ◌≡◌, refl, Bool, Option, none, some, [], ◌∷◌, ◌==◌, if◌then◌else◌, arith,
  Bool-cases, inl, inr,
}
use flexbraid.Assoc.{Assoc, lookup, Distinct}
use flexbraid.Session.{
  ServerSession, Manager, Egress, no_egress, opened, closed, shut, close_egress, recent, keep_if,
  victims_of, close_all_of, expire,
}

-- The session, where it is recent; and otherwise, closed.
abbrev pub if_recent : ℕ → ℕ → Option ServerSession → Option ServerSession
if_recent now ttl none = none
if_recent now ttl (some s) = if recent now ttl s.last_seen then some s else none

abbrev pub if_idle : ℕ → ℕ → Option ServerSession → Option ServerSession
if_idle now ttl none = none
if_idle now ttl (some s) = if recent now ttl s.last_seen then none else some (close_egress s)

module _ (now ttl : ℕ) where
  abbrev test : ServerSession → Bool
  test s = recent now ttl s.last_seen

  missing_kept :
      (k : ℕ) (m : Assoc ServerSession) → lookup k m ≡ none → lookup k (keep_if test m) ≡ none
  missing_kept k [] h = refl
  missing_kept k ((j, s) ∷ m) h = elim (Bool-cases (test s)) [
    | inl e ↦ rw e (ground (arith, missing_kept k m))
    | inr e ↦ rw e (missing_kept k m (ground arith))
  ]

  missing_closed :
      (k : ℕ) (m : Assoc ServerSession)
      → lookup k m ≡ none
      → lookup k (close_all_of (victims_of test m)) ≡ none
  missing_closed k [] h = refl
  missing_closed k ((j, s) ∷ m) h = elim (Bool-cases (test s)) [
    | inl e ↦ rw e (missing_closed k m (ground arith))
    | inr e ↦ rw e (ground (arith, missing_closed k m))
  ]

  lookup-keep_if :
      (k : ℕ) (m : Assoc ServerSession)
      → Distinct m
      → lookup k (keep_if test m) ≡ if_recent now ttl (lookup k m)
  lookup-keep_if k [] d = refl
  lookup-keep_if k ((j, s) ∷ m) d = elim (Bool-cases (j == k)) [
    | inl own ↦
        (let same : j ≡ k = ground arith in
          let gone = missing_kept k m (subst (λ i. lookup i m ≡ none) same d.0) in
          elim (Bool-cases (test s)) [
            | inl e ↦ rw e (rw own (rw e refl))
            | inr e ↦ rw e (rw own (rw e gone))
          ])
    | inr other ↦ elim (Bool-cases (test s)) [
      | inl e ↦ rw e (rw other (lookup-keep_if k m d.1))
      | inr e ↦ rw e (rw other (lookup-keep_if k m d.1))
    ]
  ]

  lookup-victims :
      (k : ℕ) (m : Assoc ServerSession)
      → Distinct m
      → lookup k (close_all_of (victims_of test m)) ≡ if_idle now ttl (lookup k m)
  lookup-victims k [] d = refl
  lookup-victims k ((j, s) ∷ m) d = elim (Bool-cases (j == k)) [
    | inl own ↦
        (let same : j ≡ k = ground arith in
          let gone = missing_closed k m (subst (λ i. lookup i m ≡ none) same d.0) in
          elim (Bool-cases (test s)) [
            | inl e ↦ rw e (rw own (rw e gone))
            | inr e ↦ rw e (rw own (rw e refl))
          ])
    | inr other ↦ elim (Bool-cases (test s)) [
      | inl e ↦ rw e (rw other (lookup-victims k m d.1))
      | inr e ↦ rw e (rw other (lookup-victims k m d.1))
    ]
  ]

-- The socket is closed where one was attached, and all else stays.
abbrev pub IsClosed : ServerSession → ServerSession → Type 0
IsClosed s v =
    (v ≡ record s { egress = v.egress })
    × (((s.egress ≡ no_egress) × (v.egress ≡ no_egress))
        ⊎ ((n : ℕ) × ((s.egress ≡ opened n) ⊎ (s.egress ≡ closed n)) × (v.egress ≡ closed n)))

close_egress-IsClosed : (s : ServerSession) → IsClosed s (close_egress s)
unfolding close_egress
close_egress-IsClosed s = (refl, shut_cases s.egress)
  where
    shut_cases :
        (e : Egress)
        → ((e ≡ no_egress) × (shut e ≡ no_egress))
          ⊎ ((n : ℕ) × ((e ≡ opened n) ⊎ (e ≡ closed n)) × (shut e ≡ closed n))
    shut_cases no_egress = inl (refl, refl)
    shut_cases (opened n) = inr (n, inl refl, refl)
    shut_cases (closed n) = inr (n, inr refl, refl)

-- What Expire does with the session under an ID.
abbrev pub Expires :
    ℕ → ℕ → Option ServerSession → Option ServerSession → Option ServerSession → Type 0
Expires now ttl before kept victim =
    ((before ≡ none) × (kept ≡ none) × (victim ≡ none))
    ⊎ ((s : ServerSession) × (before ≡ some s)
        × (((now ≤ s.last_seen + ttl) × (kept ≡ some s) × (victim ≡ none))
            ⊎ ((s.last_seen + ttl < now)
                × (kept ≡ none)
                × ((v : ServerSession) × (victim ≡ some v) × IsClosed s v))))

Expires-option :
    (now ttl : ℕ) (o : Option ServerSession)
    → Expires now ttl o (if_recent now ttl o) (if_idle now ttl o)
Expires-option now ttl none = inl (refl, refl, refl)
Expires-option now ttl (some s) = inr (
  s,
  refl,
  elim (Bool-cases (recent now ttl s.last_seen)) [
    | inl e ↦ rw e (inl (ground arith, refl, refl))
    | inr e ↦ rw e (inr (ground arith, refl, (close_egress s, refl, close_egress-IsClosed s)))
  ],
)

-- Expire keeps exactly the sessions whose last frame is no older than `ttl`, as they were, and hands
-- out exactly the others, each with its socket closed and otherwise as it was. No ID stands twice in
-- the table.
pub lookup-expire :
    (now ttl k : ℕ) (m : Manager)
    → Distinct m.sessions
    → Expires now ttl
        (lookup k m.sessions)
        (lookup k (expire now ttl m).1.sessions)
        (lookup k (expire now ttl m).0)
unfolding expire
lookup-expire now ttl k m d =
    rw (lookup-keep_if now ttl k m.sessions d, lookup-victims now ttl k m.sessions d)
      (Expires-option now ttl (lookup k m.sessions))
