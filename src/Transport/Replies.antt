-- ===== src/Transport/Replies.antt =====
-- internal/transport/icmp.go: what the reply queues keep, and what a reply carries of them.
use mathlib.Core.Path.{subst}
use mathlib.Core.List.{append-nil, append_assoc}
use flexbraid.Prelude.{
  ℕ, suc, ◌+◌, ◌≤◌, ◌<◌, ◌≡◌, refl, sym, ap, ◌∙◌, ◌⊎◌, inl, inr, List, [], ◌∷◌, ◌++◌, arith, length,
  length-append, take, get_or, ltb, ◌==◌, ==_refl, Bool-cases, if-true, if-false,
}
use flexbraid.Assoc.{put, lookup_or-put}
use flexbraid.Transport.ReplyQueue.{
  Queues, queue_of, bytes_of, dropped_oldest, made_room, send_to, fill_reply, drain_replies,
  max_reply,
}

unfoldable pub size : List (List ℕ) → ℕ
size [] = 0
size (f ∷ q) = length f + size q

pub concat : List (List ℕ) → List ℕ
concat [] = []
concat (f ∷ q) = f ++ concat q

-- The bytes on the books of a peer are those in its queue.
abbrev pub IsCounted : ℕ → Queues → Type 0
IsCounted key s = bytes_of key s ≡ size (queue_of key s)

size-append : (q : List (List ℕ)) (b : List ℕ) → size (q ++ (b ∷ [])) ≡ size q + length b
unfolding size
size-append [] b = omega arith
size-append (f ∷ q) b = omega (arith, size-append q b)

size-dropped_oldest :
    (q : List (List ℕ)) (n : ℕ) → n ≡ size q → (dropped_oldest q n).1 ≡ size (dropped_oldest q n).0
unfolding size
size-dropped_oldest [] n e = e
size-dropped_oldest (f ∷ q) n e = omega arith

size-made_room :
    (b : List ℕ) (q : List (List ℕ)) (n : ℕ)
    → n ≡ size q
    → (made_room b q n).1 ≡ size (made_room b q n).0
unfolding made_room
size-made_room b q n e = ground (arith, size-dropped_oldest q n e)

counted :
    (key other n : ℕ) (q : List (List ℕ)) (s : Queues)
    → n ≡ size q
    → IsCounted other s
    → IsCounted other
        (record { reply_queue = put key q s.reply_queue; queue_bytes = put key n s.queue_bytes })
counted key other n q s e h =
    lookup_or-put 0 key other n s.queue_bytes
    ∙ (elim (Bool-cases (key == other)) [ inl same ↦ rw same e | inr differ ↦ rw differ h ])
    ∙ ap size (sym (lookup_or-put [] key other q s.reply_queue))

-- Whoever is sent a frame, and whoever polls: the books of every peer stay right.
pub send_to-IsCounted :
    (key other : ℕ) (b : List ℕ) (s : Queues)
    → IsCounted key s
    → IsCounted other s
    → IsCounted other (send_to key b s) × IsCounted other (drain_replies key s).1
unfolding send_to drain_replies size
send_to-IsCounted key other b s h h' =
    let (q', n') = made_room b (queue_of key s) (bytes_of key s) in
    let fits : n' + length b ≡ size (q' ++ (b ∷ [])) =
      omega (arith, size-made_room b (queue_of key s) (bytes_of key s) h, size-append q' b) in
    (counted key other (n' + length b) (q' ++ (b ∷ [])) s fits h', counted key other 0 [] s refl h')

-- `out` is what was there, then the `k` oldest frames with no mark between them. The frames end, or
-- the next one does not fit.
abbrev pub IsFilled : List (List ℕ) → List ℕ → List ℕ → Type 0
IsFilled q reply out =
    (k : ℕ) × (out ≡ reply ++ concat (take k q))
    × (length out ≤ max_reply)
    × ((k ≡ length q) ⊎ ((k < length q) × (max_reply < length out + length (get_or q k []))))

fill_reply-IsFilled :
    (q : List (List ℕ)) (reply : List ℕ)
    → length reply ≤ max_reply
    → IsFilled q reply (fill_reply q reply)
unfolding fill_reply concat
fill_reply-IsFilled [] reply h = (0, sym (append-nil reply), h, inl refl)
fill_reply-IsFilled (f ∷ q) reply h =
    elim (Bool-cases (ltb max_reply (length reply + length f)))
      as (λ _. IsFilled (f ∷ q) reply (fill_reply (f ∷ q) reply)) [
        | inl e ↦
            subst (IsFilled (f ∷ q) reply) (sym (if-true _ _ e))
              (0, sym (append-nil reply), h, inr (omega arith, ground arith))
        | inr e ↦
            (let (k, run, small, ends) =
                fill_reply-IsFilled q (reply ++ f) (ground (arith, length-append reply f)) in
              subst (IsFilled (f ∷ q) reply) (sym (if-false _ _ e)) (
                suc k,
                run ∙ append_assoc reply f (concat (take k q)),
                small,
                elim ends [
                  | inl all ↦ inl (omega arith)
                  | inr (more, full) ↦ inr (omega arith, full)
                ],
              ))
      ]

-- The reply to a poll is a run of the oldest frames of the peer, of at most 1464 bytes and as long as
-- that allows; all frames that waited are gone from the queue, those of the reply and the others.
pub drain_replies_lem :
    (key : ℕ) (s : Queues)
    → IsFilled (queue_of key s) [] (drain_replies key s).0
      × (queue_of key (drain_replies key s).1 ≡ [])
unfolding drain_replies
drain_replies_lem key s = (
  fill_reply-IsFilled (queue_of key s) [] (omega arith),
  lookup_or-put [] key key [] s.reply_queue ∙ if-true _ _ (==_refl key),
)
