-- ===== src/Tunnel/Probes.antt =====
-- internal/tunnel/server.go: what a keepalive does to the monitor of its path.
use mathlib.Core.Path.{subst}
use flexbraid.Prelude.{
  ℕ, ◌-◌, ◌*◌, ◌≡◌, ◌<◌, refl, ◌∙◌, sym, ap, Bool, true, false, ◌&&◌, ◌⊎◌, inl, inr, none, some,
  List, arith, ltb, if-true, ==_refl, if-false, elim-none, elim-some, length, leb, Bool-cases,
  Option-cases,
}
use flexbraid.Prelude.Int.{pos}
use flexbraid.Assoc.{lookup, lookup_or, put, lookup-put, lookup_or-put}
use flexbraid.Float.{Float}
use flexbraid.Frame.{Frame, has_flag, version}
use flexbraid.Frame.Flag
use flexbraid.Fec.{ReedSolomon}
use flexbraid.Crypto.Seal.{client_to_server}
use flexbraid.Crypto.Kdf.{Library}
use flexbraid.Health.{note_alive, observe_sample}
use flexbraid.Session.{ServerSession, check_replay, get_session, touch, set_endpoint}
use flexbraid.Tunnel.Wire.{Carries}
use flexbraid.Tunnel.Paths.{
  max_paths_per_session, PathState, SessState, Settings, new_path, declare, register,
  probe_interval, observe_keepalive,
}
use flexbraid.Tunnel.Server.{
  Server, Supply, Reaction, state_for, register_path, observed_at, pong_frame, answer_probe,
  take_data, handle_client_frame,
}
use flexbraid.Tunnel.Reaches.{opens_to_take}

module _ (fl : Float) where
  -- The path of an address, or the one that its first datagram makes.
  abbrev pub path_at : Settings fl → ℕ → ℕ → SessState fl → PathState fl
  path_at g now addr st = lookup_or (new_path fl g now addr) addr st.paths

  -- The server knows the path or has room for it.
  abbrev pub HasPlace : ℕ → SessState fl → Type 0
  HasPlace addr st =
      ((ps : PathState fl) × (lookup addr st.paths ≡ some ps))
      ⊎ (length st.paths < max_paths_per_session)

  abbrev heard : Settings fl → ℕ → ℕ → SessState fl → PathState fl
  heard g now addr st = record (path_at g now addr st) { last_arrive = now }

  -- A registration marks its path as heard at that time.
  register-lookup :
      (g : Settings fl) (now addr : ℕ) (st : SessState fl)
      → HasPlace addr st
      → lookup addr (register fl g now addr none st).1.paths ≡ some (heard g now addr st)
  unfolding register declare new_path
  register-lookup g now addr st place =
      let At : PathState fl → Bool × SessState fl → Type 0 =
        λ ps r. lookup addr r.1.paths ≡ some ps in
      let stored : (ps : PathState fl) → lookup addr (put addr ps st.paths) ≡ some ps =
        λ ps. lookup-put addr addr ps st.paths ∙ if-true _ _ (==_refl addr) in
      elim (Option-cases (lookup addr st.paths)) [
        | inr (ps, e) ↦
            (let known : heard g now addr st ≡ record ps { last_arrive = now } =
                ap (λ (p : PathState fl). record p { last_arrive = now }) (elim-some _ _ e) in
              subst (At (heard g now addr st)) (sym (elim-some _ _ e))
                (stored (record ps { last_arrive = now }) ∙ ap some (sym known)))
        | inl e ↦
            (let new : heard g now addr st ≡ new_path fl g now addr =
                ap (λ (p : PathState fl). record p { last_arrive = now }) (elim-none _ _ e) in
              let room : leb max_paths_per_session (length st.paths) ≡ false = ground arith in
              subst (At (heard g now addr st)) (sym (elim-none _ _ e ∙ if-false _ _ room))
                (stored (new_path fl g now addr) ∙ ap some (sym new)))
      ]

  -- A path that has just been heard gets a sample without loss, however long the last keepalive is ago.
  observe-heard :
      (now interval : ℕ) (ps : PathState fl)
      → ps.last_arrive ≡ now
      → observe_keepalive fl now interval ps ≡ record ps {
        last_keepalive = now;
        monitor = observe_sample fl (fl.milli 0) (pos 0) (note_alive fl ps.monitor);
      }
  unfolding observe_keepalive
  observe-heard now interval ps at =
      let quiet : (ltb (2 * interval) (now - ps.last_keepalive)
            && ltb (2 * interval) (now - ps.last_arrive))
          ≡ false =
        ground arith in
      ap (λ m. record ps { last_keepalive = now; monitor = m }) (if-false _ _ quiet)

  observed_at-lookup :
      (now addr interval : ℕ) (st : SessState fl) (ps : PathState fl) (rs : ReedSolomon)
      → lookup addr st.paths ≡ some ps
      → lookup addr (observed_at fl rs now addr interval st).paths
        ≡ some (observe_keepalive fl now interval ps)
  observed_at-lookup now addr interval st ps rs e =
      ap (λ (x : SessState fl). lookup addr x.paths) (elim-some _ _ e)
      ∙ lookup-put addr addr (observe_keepalive fl now interval ps) st.paths
      ∙ if-true _ _ (==_refl addr)

  module _ (rs : ReedSolomon) (lib : Library) (now addr : ℕ) (s : Server fl rs) where
    register_path-id :
        (sess : ServerSession) → (register_path fl rs now addr none sess s).0.id ≡ sess.id
    unfolding register_path set_endpoint
    register_path-id sess =
        elim (Bool-cases (register fl s.settings now addr none (state_for fl rs sess.id s)).0) [
          | inl e ↦ rw e refl
          | inr e ↦ rw e refl
        ]

    -- The state of the path after a keepalive of a session has been taken.
    abbrev pub Probed : ℕ → Server fl rs → Type 0
    Probed id s' =
        (ps : PathState fl) × (lookup addr (state_for fl rs id s').paths ≡ some ps)
        × (ps.last_keepalive ≡ now)
        × (ps.last_arrive ≡ now)
        × (ps.monitor
            ≡ observe_sample fl (fl.milli 0) (pos 0)
                (note_alive fl (path_at s.settings now addr (state_for fl rs id s)).monitor))

    answer_probe-lookup :
        (f : Frame) (placed : ServerSession) (s1 : Server fl rs) (ps : PathState fl)
        → lookup addr (state_for fl rs placed.id s1).paths ≡ some ps
        → lookup addr
            (state_for fl rs placed.id (answer_probe fl rs lib now addr f placed s1).1).paths
          ≡ some (observe_keepalive fl now (probe_interval fl s1.settings) ps)
    unfolding answer_probe pong_frame
    answer_probe-lookup f placed s1 ps e =
        let interval = probe_interval fl s1.settings in
        let st = observed_at fl rs now addr interval (state_for fl rs placed.id s1) in
        ap (λ (x : SessState fl). lookup addr x.paths)
          (lookup_or-put _ placed.id placed.id st s1.states ∙ if-true _ _ (==_refl placed.id))
        ∙ observed_at-lookup now addr interval (state_for fl rs placed.id s1) ps rs e

    register_path-lookup :
        (sess : ServerSession)
        → HasPlace addr (state_for fl rs sess.id s)
        → lookup addr (state_for fl rs sess.id (register_path fl rs now addr none sess s).1).paths
          ≡ some (heard s.settings now addr (state_for fl rs sess.id s))
    unfolding register_path
    register_path-lookup sess place =
        let st = state_for fl rs sess.id s in
        let r = register fl s.settings now addr none st in
        ap (λ (x : SessState fl). lookup addr x.paths)
          (lookup_or-put _ sess.id sess.id r.1 s.states ∙ if-true _ _ (==_refl sess.id))
        ∙ register-lookup s.settings now addr st place

    takes_probe :
        (f : Frame) (sess : ServerSession)
        → has_flag f Flag.keepalive ≡ true
        → HasPlace addr (state_for fl rs sess.id s)
        → Probed sess.id (take_data fl rs lib now addr f sess s).1
    unfolding take_data touch
    takes_probe f sess probe place =
        let r = register_path fl rs now addr none (touch now sess) s in
        let h = heard s.settings now addr (state_for fl rs sess.id s) in
        let same : r.0.id ≡ sess.id = register_path-id (touch now sess) in
        let placed = register_path-lookup (touch now sess) place in
        let after =
          answer_probe-lookup f r.0 r.1 h
            (subst (λ i. lookup addr (state_for fl rs i r.1).paths ≡ some h) (sym same) placed) in
        let interval = probe_interval fl r.1.settings in
        let here : lookup addr
              (state_for fl rs sess.id (answer_probe fl rs lib now addr f r.0 r.1).1).paths
            ≡ some (observe_keepalive fl now interval h) =
          subst
            (λ i.
              lookup addr (state_for fl rs i (answer_probe fl rs lib now addr f r.0 r.1).1).paths
              ≡ some (observe_keepalive fl now interval h))
            same after in
        (
          record h {
            last_keepalive = now;
            monitor = observe_sample fl (fl.milli 0) (pos 0) (note_alive fl h.monitor);
          },
          ap
                (λ (x : Reaction fl rs × Server fl rs).
                  lookup addr (state_for fl rs sess.id x.1).paths)
                (if-true _ _ probe)
              ∙ here
              ∙ ap some (observe-heard now interval h refl),
          refl,
          refl,
          refl,
        )

    -- A keepalive never counts a missed probe on the server, however long the last one is ago: the path
    -- is marked as heard before it is looked at. After a keepalive that opens under the key of its
    -- session and is new, the path has been heard now and its monitor has got a sample without loss.
    -- The session knows the path or has room for it.
    pub probe_counts_no_miss :
        (supply : Supply) (f : Frame) (sess : ServerSession) (bytes : List ℕ)
        → Carries sess.aead client_to_server f bytes
        → has_flag f Flag.first ≡ false
        → has_flag f Flag.keepalive ≡ true
        → get_session f.session_id s.mgr ≡ some sess
        → (check_replay f.seq sess).0 ≡ true
        → HasPlace addr (state_for fl rs sess.id s)
        → Probed sess.id (handle_client_frame fl rs lib now addr bytes supply s).1
    unfolding check_replay has_flag
    probe_counts_no_miss supply f sess bytes k no_first probe found new place =
        subst (λ (r : Reaction fl rs × Server fl rs). Probed sess.id r.1)
          (sym (opens_to_take fl rs lib now addr supply s f sess bytes k no_first found new))
          (takes_probe (record f { version = version }) (check_replay f.seq sess).1 probe place)
