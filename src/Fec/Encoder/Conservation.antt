-- ===== src/Fec/Encoder/Conservation.antt =====
-- internal/fec/fec.go: the encoder loses, repeats and reorders no data frame.
use mathlib.Core.List.{append-nil, append_assoc, map-append}
use flexbraid.Prelude.{
  ℕ, ◌+◌, ◌%◌, ◌^◌, ◌≡◌, refl, sym, ap, ◌∙◌, true, List, [], ◌∷◌, ◌++◌, map, arith, Bool-cases, inl,
  inr,
}
use flexbraid.Float.{Float}
use flexbraid.Frame.{Frame}
use flexbraid.Fec.{enabled, ReedSolomon}
use flexbraid.Fec.Encoder.{
  stamp, mark_pass_seq, Encoder, refresh, set_loss_rate, push_refreshed, push, tick_refreshed, tick,
}

-- What of a frame the inner peer gets.
abbrev pub content : Frame → ℕ × List ℕ
content f = (f.seq, f.payload)

abbrev pub contents : List Frame → List (ℕ × List ℕ)
contents = map content

contents-stamp : (bs : ℕ) (fs : List Frame) → contents (map (stamp bs) fs) ≡ contents fs
contents-stamp bs [] = refl
contents-stamp bs (f ∷ fs) = ap (λ l. content f ∷ l) (contents-stamp bs fs)

contents-mark_pass_seq : (fs : List Frame) → contents (map mark_pass_seq fs) ≡ contents fs
contents-mark_pass_seq [] = refl
contents-mark_pass_seq (f ∷ fs) = ap (λ l. content f ∷ l) (contents-mark_pass_seq fs)

-- One call's frames before those of the calls behind it.
contents_join :
    (out rest : List Frame) (pend p x g : List (ℕ × List ℕ))
    → contents out ++ p ≡ x
    → contents rest ++ pend ≡ p ++ g
    → contents (out ++ rest) ++ pend ≡ x ++ g
contents_join out rest pend p x g h k = rw (
  map-append content out rest,
  append_assoc (contents out) (contents rest) pend,
  k,
  ← append_assoc (contents out) p g,
  h,
)

module _ (fl : Float) (rs : ReedSolomon) where
  open fl use {Carrier}

  -- The calls of an encoder.
  pub data Call : Type 0 where
    pushed : ℕ → Frame → Call
    ticked : ℕ → Call
    measured : ℕ → Carrier → Call

  abbrev pub given : List Call → List Frame
  given [] = []
  given (pushed now f ∷ cs) = f ∷ given cs
  given (ticked now ∷ cs) = given cs
  given (measured now r ∷ cs) = given cs

  -- The data frames that the calls return, and the encoder at the end.
  unfoldable pub run : List Call → Encoder fl rs → List Frame × Encoder fl rs
  run [] e = ([], e)
  run (pushed now f ∷ cs) e =
      let (o, e') = push fl rs now f e in let (fs, e'') = run cs e' in (o.data_frames ++ fs, e'')
  run (ticked now ∷ cs) e =
      let (o, e') = tick fl rs now e in let (fs, e'') = run cs e' in (o.data_frames ++ fs, e'')
  run (measured now r ∷ cs) e = run cs (set_loss_rate fl rs now r e)

  -- The decision touches neither the frames that wait nor the parameters.
  pub refresh_keeps :
      (now : ℕ) (e : Encoder fl rs)
      → ((refresh fl rs now e).pending ≡ e.pending) × ((refresh fl rs now e).params ≡ e.params)
  unfolding refresh
  refresh_keeps now e = ground arith

  push_refreshed-contents :
      (now : ℕ) (f : Frame) (e : Encoder fl rs)
      → let (o, e') = push_refreshed fl rs now f e in
        contents o.data_frames ++ contents e'.pending ≡ contents e.pending ++ (content f ∷ [])
  unfolding push_refreshed
  push_refreshed-contents now f e = ground (
    arith,
    contents-stamp ((e.block + 1) % 2 ^ 32) (e.pending ++ (f ∷ [])),
    contents-mark_pass_seq (e.pending ++ (f ∷ [])),
    append-nil (contents (e.pending ++ (f ∷ []))),
    map-append content e.pending (f ∷ []),
  )

  tick_refreshed-contents :
      (now : ℕ) (e : Encoder fl rs)
      → let (o, e') = tick_refreshed fl rs now e in
        contents o.data_frames ++ contents e'.pending ≡ contents e.pending
  unfolding tick_refreshed
  tick_refreshed-contents now e =
      ground
        (arith, contents-stamp ((e.block + 1) % 2 ^ 32) e.pending, append-nil (contents e.pending))

  push-contents :
      (now : ℕ) (f : Frame) (e : Encoder fl rs)
      → enabled fl e.params ≡ true
      → let (o, e') = push fl rs now f e in
        contents o.data_frames ++ contents e'.pending ≡ contents e.pending ++ (content f ∷ [])
  unfolding push
  push-contents now f e on =
      rw (on, push)
        (push_refreshed-contents now f (refresh fl rs now e)
          ∙ ap (λ (p : List Frame). contents p ++ (content f ∷ [])) (refresh_keeps now e).0)

  tick-contents :
      (now : ℕ) (e : Encoder fl rs)
      → let (o, e') = tick fl rs now e in
        contents o.data_frames ++ contents e'.pending ≡ contents e.pending
  unfolding tick
  tick-contents now e = elim (Bool-cases (enabled fl e.params)) [
    | inl on ↦
        rw (on, tick)
          (tick_refreshed-contents now (refresh fl rs now e) ∙ ap contents (refresh_keeps now e).0)
    | inr off ↦ rw (off, tick) refl
  ]

  params-push : (now : ℕ) (f : Frame) (e : Encoder fl rs) → (push fl rs now f e).1.params ≡ e.params
  unfolding push push_refreshed
  params-push now f e = ground (arith, refresh_keeps now e)

  params-tick : (now : ℕ) (e : Encoder fl rs) → (tick fl rs now e).1.params ≡ e.params
  unfolding tick tick_refreshed
  params-tick now e = ground (arith, refresh_keeps now e)

  set_loss_rate_keeps :
      (now : ℕ) (r : Carrier) (e : Encoder fl rs)
      → ((set_loss_rate fl rs now r e).pending ≡ e.pending)
        × ((set_loss_rate fl rs now r e).params ≡ e.params)
  unfolding set_loss_rate
  set_loss_rate_keeps now r e = ground arith

  -- Whatever the loss, the timeouts and the switches between coding and pass-through: the data
  -- frames that an enabled encoder has returned, followed by those that still fill a block, are the
  -- frames that it was given, in their order and with their seqs and payloads.
  pub run-contents :
      (cs : List Call) (e : Encoder fl rs)
      → enabled fl e.params ≡ true
      → contents (run cs e).0 ++ contents (run cs e).1.pending
        ≡ contents e.pending ++ contents (given cs)
  unfolding run
  run-contents [] e on = sym (append-nil (contents e.pending))
  run-contents (pushed now f ∷ cs) e on =
      let (o, e') = push fl rs now f e in
      contents_join o.data_frames (run cs e').0 _ _ _ _ (push-contents now f e on)
        (run-contents cs e' (ap (enabled fl) (params-push now f e) ∙ on))
      ∙ append_assoc (contents e.pending) (content f ∷ []) (contents (given cs))
  run-contents (ticked now ∷ cs) e on =
      let (o, e') = tick fl rs now e in
      contents_join o.data_frames (run cs e').0 _ _ _ _ (tick-contents now e)
        (run-contents cs e' (ap (enabled fl) (params-tick now e) ∙ on))
  run-contents (measured now r ∷ cs) e on =
      let (same, params) = set_loss_rate_keeps now r e in
      run-contents cs (set_loss_rate fl rs now r e) (ap (enabled fl) params ∙ on)
      ∙ ap (λ (p : List Frame). contents p ++ contents (given cs)) same
