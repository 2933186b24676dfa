-- ===== src/Tunnel/Egress.antt =====
-- internal/tunnel/server.go: the batches that the server sends to a session (sendToSession with pickPath and
-- pickCrossPath). The random number of the scheduler is an argument.
use flexbraid.Prelude.{
  ℕ, ◌+◌, ◌%◌, ◌^◌, Bool, true, false, Option, none, some, List, [], ◌∷◌, ◌++◌, get_or,
  if◌then◌else◌,
}
use flexbraid.Assoc.{lookup, put}
use flexbraid.Float.{Float}
use flexbraid.Frame.{Frame, has_flag}
use flexbraid.Frame.Flag
use flexbraid.Fec.{ReedSolomon}
use flexbraid.Session.{ServerSession, next_seq}
use flexbraid.Scheduler.{pick, pick_wrr}
use flexbraid.Tunnel.Paths.{PathState, SessState}
use flexbraid.Tunnel.Server.{to_addr}

module _ (fl : Float) where
  open fl use {Carrier}

  -- The address of a path that the scheduler has named.
  abbrev pub addr_of : List ℕ → SessState fl → Option ℕ
  addr_of id st = elim (lookup (get_or id 0 0) st.paths) [ none ↦ none | some ps ↦ some ps.addr ]

  -- With no usable path, the last address that was heard.
  unfoldable pub pick_path : Carrier → SessState fl → Option ℕ × SessState fl
  pick_path random st =
      let (got, sched) = pick fl [] random st.sched in
      let st' = record st { sched = sched } in
      elim got [
        | none ↦ (st.last_seen, st')
        | some id ↦ elim (addr_of id st) [ none ↦ (st.last_seen, st') | some a ↦ (some a, st') ]
      ]

  unfoldable pub pick_cross_path : SessState fl → Option ℕ × SessState fl
  pick_cross_path st =
      let (got, sched) = pick_wrr fl st.sched in
      let st' = record st { sched = sched } in
      elim got [ none ↦ (none, st') | some id ↦ (addr_of id st, st') ]

  -- A parity frame gets a fresh seq.
  abbrev pub numbered : Frame → ServerSession → Frame × ServerSession
  numbered f sess =
      let (seq, sess') = next_seq sess in
      if has_flag f Flag.fec_parity then (record f { seq = seq }, sess') else (f, sess)

  abbrev pub count : ℕ → Frame → PathState fl → SessState fl → Frame × SessState fl
  count addr f ps st = (
    record f { block_seq = ps.path_seq },
    record st { paths = put addr (record ps { path_seq = (ps.path_seq + 1) % 2 ^ 32 }) st.paths },
  )

  -- A frame that is passed through gets the counter of its path.
  abbrev pub counted : ℕ → Frame → SessState fl → Frame × SessState fl
  counted addr f st =
      if has_flag f Flag.pass_seq
      then elim (lookup addr st.paths) [ none ↦ (f, st) | some ps ↦ count addr f ps st ]
      else (f, st)

  module _ (rs : ReedSolomon) where
    -- The loop over a batch. `one` is the address of a batch that is not spread over paths.
    unfoldable pub send_frames :
        Bool
        → Option ℕ
        → List Frame
        → ServerSession
        → SessState fl
        → List (ℕ × List ℕ) × ServerSession × SessState fl
    send_frames cross one [] sess st = ([], sess, st)
    send_frames cross one (f ∷ fs) sess st =
        let (f1, sess1) = numbered f sess in
        let (to, st1) = if cross then pick_cross_path st else (one, st) in
        elim to [
          | none ↦ send_frames cross one fs sess1 st1
          | some addr ↦
              (let (f2, st2) = counted addr f1 st1 in
                let (out, sess', st') = send_frames cross one fs sess1 st2 in
                (to_addr fl rs sess.aead addr f2 ++ out, sess', st'))
        ]

    unfoldable pub send_to_session :
        Bool
        → Carrier
        → List Frame
        → ServerSession
        → SessState fl
        → List (ℕ × List ℕ) × ServerSession × SessState fl
    send_to_session cross random [] sess st = ([], sess, st)
    send_to_session cross random (f ∷ fs) sess st =
        let spread = send_frames true none (f ∷ fs) sess st in
        let (one, st') = pick_path random st in
        let together = send_frames false one (f ∷ fs) sess st' in
        if cross then spread else elim one [ none ↦ ([], sess, st') | some a ↦ together ]
