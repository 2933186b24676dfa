-- ===== src/Transport/ReplyQueue.antt =====
-- internal/transport/icmp.go: the frames that wait for the next request of a peer (SendTo and the
-- drain in Recv). The key of a peer is a number that stands for the text of its address.
use flexbraid.Prelude.{ℕ, ◌+◌, ◌-◌, ◌^◌, List, [], ◌∷◌, ◌++◌, length, ltb, if◌then◌else◌}
use flexbraid.Assoc.{Assoc, lookup_or, put}

abbrev pub max_queue_per_peer : ℕ
max_queue_per_peer = 2 ^ 20

-- What fits an echo reply: 1472 bytes less the ICMP header.
abbrev pub max_reply : ℕ
max_reply = 1464

pub record Queues : Type 0 where
  pub reply_queue : Assoc (List (List ℕ))
  pub queue_bytes : Assoc ℕ

abbrev pub queue_of : ℕ → Queues → List (List ℕ)
queue_of key s = lookup_or [] key s.reply_queue

abbrev pub bytes_of : ℕ → Queues → ℕ
bytes_of key s = lookup_or 0 key s.queue_bytes

-- An overflow drops the oldest frame, if there is one.
abbrev pub dropped_oldest : List (List ℕ) → ℕ → List (List ℕ) × ℕ
dropped_oldest [] n = ([], n)
dropped_oldest (f ∷ q) n = (q, n - length f)

unfoldable pub made_room : List ℕ → List (List ℕ) → ℕ → List (List ℕ) × ℕ
made_room b q n = if ltb max_queue_per_peer (n + length b) then dropped_oldest q n else (q, n)

unfoldable pub send_to : ℕ → List ℕ → Queues → Queues
send_to key b s =
    let (q', n') = made_room b (queue_of key s) (bytes_of key s) in
    record {
      reply_queue = put key (q' ++ (b ∷ [])) s.reply_queue;
      queue_bytes = put key (n' + length b) s.queue_bytes;
    }

-- The loop that fills the reply, up to the first frame that does not fit.
unfoldable pub fill_reply : List (List ℕ) → List ℕ → List ℕ
fill_reply [] reply = reply
fill_reply (f ∷ q) reply =
    let more = fill_reply q (reply ++ f) in
    if ltb max_reply (length reply + length f) then reply else more

-- The reply to a request of a peer; its queue is emptied.
unfoldable pub drain_replies : ℕ → Queues → List ℕ × Queues
drain_replies key s = (
  fill_reply (queue_of key s) [],
  record { reply_queue = put key [] s.reply_queue; queue_bytes = put key 0 s.queue_bytes },
)
