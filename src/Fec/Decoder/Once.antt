-- ===== src/Fec/Decoder/Once.antt =====
-- internal/fec/fec.go: a block that was delivered is not delivered again.
use mathlib.Core.Path.{subst}
use flexbraid.Prelude.{
  elim-none, ℕ, ◌+◌, ◌%◌, ◌^◌, ◌≤◌, ◌≡◌, ap, ◌∙◌, sym, ◌≢◌, ◌⊎◌, inl, inr, Bool, true, false,
  Option, none, some, List, [], ◌∷◌, ltb, leb, ◌==◌, if◌then◌else◌, arith, Option-cases, Bool-cases,
  All, if-true,
}
use flexbraid.Assoc.{Assoc, lookup, lookup-put, lookup-erase}
use flexbraid.Float.{Float}
use flexbraid.Frame.{Frame}
use flexbraid.Fec.{ReedSolomon}
use flexbraid.Fec.Block.{
  BlockState, new_block, add_data, add_parity, Codecs, Outcome, waits, complete, panics,
}
use flexbraid.Fec.Decoder.{
  Lane, Shared, Step, is_parity, flush, keep, flush_due, deliver, push_data, push_parity,
  push_shard, push_block,
}

-- The block `bs` is over: it is not held, and the guard of Push knows it.
pub record Settled (bs : ℕ) (l : Lane) : Type 0 where
  pub gone : lookup bs l.blocks ≡ none
  pub known : bs ≤ l.last_flushed

pub flush-settles :
    (session bs : ℕ) (st : BlockState) (held : Assoc (List ℕ)) (l : Lane)
    → Settled bs (flush session bs st held l).1
unfolding flush
flush-settles session bs st held l = record {
  gone = ground (arith, lookup-erase bs bs l.blocks);
  known = omega arith;
}

flush-Settled :
    (session bs j : ℕ) (st : BlockState) (held : Assoc (List ℕ)) (l : Lane)
    → Settled j l
    → Settled j (flush session bs st held l).1
unfolding flush
flush-Settled session bs j st held l s = record {
  gone = ground (arith, lookup-erase bs j l.blocks, s.gone);
  known = omega (arith, s.known);
}

-- Any round of Tick keeps it so.
pub flush_due-Settled :
    (session now j : ℕ) (m : Assoc BlockState) (l : Lane)
    → Settled j l
    → Settled j (flush_due session now m l).1
unfolding flush_due
flush_due-Settled session now j [] l s = s
flush_due-Settled session now j ((bs, st) ∷ rest) l s = elim (Bool-cases (ltb now st.deadline)) [
  | inl early ↦ rw (early, flush_due) (flush_due-Settled session now j rest l s)
  | inr due ↦
      rw (due, flush_due)
        (flush_due-Settled session now j rest _
          (unfold flush in flush-Settled session bs j st st.data_shards l s))
]

keep-Settled :
    (bs j : ℕ) (st : BlockState) (l : Lane) → bs ≢ j → Settled j l → Settled j (keep bs st l)
keep-Settled bs j st l ne s = record {
  gone = ground (arith, lookup-put bs j st l.blocks, s.gone);
  known = s.known;
}

-- The calls on one stream: a frame with the deadline of a block that it may start, and Tick.
pub data Event : Type 0 where
  arrived : (due : ℕ) → Frame → Event
  ticked : (session now : ℕ) → Event

module _ (fl : Float) (rs : ReedSolomon) where
  -- The lane behind a call, when the call does not panic.
  abbrev pub Leaves : (Lane → Type 0) → Option Step → Type 0
  Leaves P none = Unit
  Leaves P (some s) = P s.lane

  deliver-Settled :
      (session bs j : ℕ) (st : BlockState) (l : Lane) (sh : Shared) (o : Outcome × Codecs)
      → bs ≢ j
      → Settled j l
      → Leaves (Settled j) (deliver fl rs session bs st l sh o)
  unfolding deliver
  deliver-Settled session bs j st l sh (waits, cs) ne s = keep-Settled bs j st l ne s
  deliver-Settled session bs j st l sh (panics, cs) ne s = tt
  deliver-Settled session bs j st l sh (complete n held, cs) ne s =
      unfold flush in flush-Settled session bs j st held l s

  push_shard-Settled :
      (due j : ℕ) (f : Frame) (st : BlockState) (l : Lane) (sh : Shared)
      → f.block_seq ≢ j
      → Settled j l
      → Leaves (Settled j) (push_shard fl rs due f st l sh)
  unfolding push_shard push_data push_parity
  push_shard-Settled due j f st l sh ne s = elim (Bool-cases (is_parity f)) [
    | inl p ↦ elim (Option-cases (add_parity due f st)) [
      | inl e ↦ rw (p, e, push_shard, push_parity) (keep-Settled f.block_seq j st l ne s)
      | inr (st', e) ↦
          rw (p, e, push_shard, push_parity)
            (deliver-Settled f.session_id f.block_seq j st' l sh _ ne s)
    ]
    | inr d ↦
        rw (d, push_shard, push_data)
          (deliver-Settled f.session_id f.block_seq j (add_data due f st).1 _ sh _ ne
            (counted (add_data due f st).0))
  ]
    where
      counted :
          (b : Bool)
          → Settled j (if b then record l { received = (l.received + 1) % 2 ^ 64 } else l)
      counted true = record { gone = s.gone; known = s.known }
      counted false = s

  -- A frame of a block that is over, data or parity, changes nothing and delivers nothing.
  Settled-silent :
      (due : ℕ) (f : Frame) (l : Lane) (sh : Shared)
      → Settled f.block_seq l
      → push_block fl rs due f l sh ≡ some (record { out = []; lane = l; shared = sh })
  unfolding push_block
  Settled-silent due f l sh s =
      let old : leb f.block_seq l.last_flushed ≡ true = ground (arith, s.known) in
      elim-none _ _ s.gone ∙ if-true _ _ old

  push_block-Settled :
      (due j : ℕ) (f : Frame) (l : Lane) (sh : Shared)
      → Settled j l
      → Leaves (Settled j) (push_block fl rs due f l sh)
  unfolding push_block
  push_block-Settled due j f l sh s = elim (Bool-cases (f.block_seq == j)) [
    | inl own ↦
        (let e : f.block_seq ≡ j = ground arith in
          rw (Settled-silent due f l sh (subst (λ i. Settled i l) (sym e) s)) s)
    | inr other ↦ elim (Option-cases (lookup f.block_seq l.blocks)) [
      | inr (st, e) ↦ rw (e, push_block) (push_shard-Settled due j f st l sh (ground arith) s)
      | inl e ↦ elim (Bool-cases (leb f.block_seq l.last_flushed)) [
        | inl late ↦ rw (e, push_block) (rw late s)
        | inr fresh ↦
            rw (e, push_block)
              (rw fresh (push_shard-Settled due j f new_block l sh (ground arith) s))
      ]
    ]
  ]

  -- A run of calls that do not panic, each with what it delivers.
  pub data Run : Lane → Shared → List (Event × List Frame) → Lane → Shared → Type 0 where
    done : {l : Lane} {sh : Shared} → Run l sh [] l sh
    tick :
        {l : Lane} {sh : Shared} {es : List (Event × List Frame)} {l' : Lane} {sh' : Shared}
        → (session now : ℕ) → Run (flush_due session now l.blocks l).1 sh es l' sh'
        → Run l sh ((ticked session now, (flush_due session now l.blocks l).0) ∷ es) l' sh'
    push :
        {l : Lane} {sh : Shared} {es : List (Event × List Frame)} {l' : Lane} {sh' : Shared}
        → (due : ℕ) (f : Frame) (s : Step) → push_block fl rs due f l sh ≡ some s
        → Run s.lane s.shared es l' sh'
        → Run l sh ((arrived due f, s.out) ∷ es) l' sh'

  abbrev out_of : Option Step → List Frame
  out_of none = []
  out_of (some s) = s.out

  -- A frame of the block `j` delivers nothing.
  abbrev pub IsSilent : ℕ → Event × List Frame → Type 0
  IsSilent j (arrived due f, out) = (f.block_seq ≢ j) ⊎ (out ≡ [])
  IsSilent j (ticked session now, out) = Unit

  IsSilent-push :
      (j due : ℕ) (f : Frame) (l : Lane) (sh : Shared) (s : Step)
      → Settled j l
      → push_block fl rs due f l sh ≡ some s
      → IsSilent j (arrived due f, s.out)
  IsSilent-push j due f l sh s settled e = elim (Bool-cases (f.block_seq == j)) [
    | inr other ↦ inl (ground arith)
    | inl own ↦
        (let same : f.block_seq ≡ j = ground arith in
          let q = Settled-silent due f l sh (subst (λ i. Settled i l) (sym same) settled) in
          inr (ap out_of (sym e ∙ q)))
  ]

  -- Once a block is over, it is over for the rest of any run: none of its frames delivers anything,
  -- whatever other frames and rounds of Tick come between.
  pub Settled-run :
      (j : ℕ) {l : Lane} {sh : Shared} {es : List (Event × List Frame)} {l' : Lane} {sh' : Shared}
      → Run l sh es l' sh'
      → Settled j l
      → All (IsSilent j) es × Settled j l'
  Settled-run j done s = (tt, s)
  Settled-run j {l} (tick session now r) s =
      let (quiet, last) = Settled-run j r (flush_due-Settled session now j l.blocks l s) in
      ((tt, quiet), last)
  Settled-run j {l} {sh} (push due f t e r) s =
      let next = subst (Leaves (Settled j)) e (push_block-Settled due j f l sh s) in
      let (quiet, last) = Settled-run j r next in ((IsSilent-push j due f l sh t s e, quiet), last)
