-- ===== src/Tunnel/Bounded.antt =====
-- internal/tunnel/server.go: the tables of the server stay within their bounds, whatever arrives.
use mathlib.Core.Path.{subst}
use flexbraid.Prelude.{
  uint32, ℕ, ◌≤◌, ◌<◌, ◌≡◌, refl, sym, inl, inr, ◌⊎◌, Bool, Option, none, some, List, [], ◌∷◌, All,
  arith, Bool-cases, Option-cases, elim-none, elim-some, length, leb,
}
use flexbraid.Assoc.{
  lookup, put, lookup-put, length-put-le, length-put_of_some, All-put, All-lookup,
}
use flexbraid.Float.{Float}
use flexbraid.Scheduler.{add_path}
use flexbraid.Fec.{ReedSolomon}
use flexbraid.Session.{ServerSession, set_endpoint, put_session}
use flexbraid.Tunnel.Paths.{
  clamped, PathState, SessState, Settings, new_path, declare, register, max_paths_per_session,
  observe_keepalive,
}
use flexbraid.Tunnel.Server.{
  Server, register_path, keep_session, observed_at, state_for, states_with,
}

module _ (fl : Float) where
  abbrev pub FewPaths : SessState fl → Type 0
  FewPaths st = length st.paths ≤ 16

  declare-FewPaths :
      (g : Settings fl) (addr : ℕ) (payload : Option (List ℕ)) (ps : PathState fl)
      (st : SessState fl)
      → ((v : PathState fl) → length (put addr v st.paths) ≤ 16)
      → FewPaths (declare fl g addr payload ps st)
  unfolding declare
  declare-FewPaths g addr none ps st room = room ps
  declare-FewPaths g addr (some b) ps st room =
      ground (arith, room ps, room (record ps { capacity = clamped fl g (uint32 b 0) }))

  register-FewPaths :
      (g : Settings fl) (now addr : ℕ) (payload : Option (List ℕ)) (st : SessState fl)
      → FewPaths st
      → FewPaths (register fl g now addr payload st).1
  unfolding register
  register-FewPaths g now addr payload st few = elim (Option-cases (lookup addr st.paths)) [
    | inr (ps, e) ↦
        subst (λ (r : Bool × SessState fl). FewPaths r.1) (sym (elim-some _ _ e))
          (declare-FewPaths g addr payload (record ps { last_arrive = now })
            (record st { last_seen = some addr })
            (λ v. omega (arith, length-put_of_some addr v ps st.paths e)))
    | inl e ↦
        subst (λ (r : Bool × SessState fl). FewPaths r.1) (sym (elim-none _ _ e))
          (elim (Bool-cases (leb max_paths_per_session (length st.paths))) [
            | inl full ↦ rw full few
            | inr room ↦ rw room (
                declare-FewPaths g addr payload (new_path fl g now addr)
                  (record st {
                    last_seen = some addr;
                    sched = add_path fl (addr ∷ []) (fl.milli 1000) st.sched;
                  })
                  (λ v. ground (arith, length-put-le addr v st.paths)))
          ])
  ]

  pub observed_at-FewPaths :
      (rs : ReedSolomon) (now addr interval : ℕ) (st : SessState fl)
      → FewPaths st
      → FewPaths (observed_at fl rs now addr interval st)
  observed_at-FewPaths rs now addr interval st few = elim (Option-cases (lookup addr st.paths)) [
    | inl e ↦ subst FewPaths (sym (elim-none _ _ e)) few
    | inr (ps, e) ↦ subst FewPaths (sym (elim-some _ _ e)) (
        omega (arith, length-put_of_some addr (observe_keepalive fl now interval ps) ps st.paths e))
  ]

  module _ (rs : ReedSolomon) where
    -- At most 1024 sessions, each under its own ID, and at most 16 paths in each.
    pub record IsBounded (s : Server fl rs) : Type 0 where
      pub sessions : length s.mgr.sessions ≤ 1024
      pub keyed : All (λ e. e.1.id ≡ e.0) s.mgr.sessions
      pub paths : All (λ e. FewPaths e.1) s.states

    -- The table has room for a session, or has it.
    abbrev pub HasRoom : ServerSession → Server fl rs → Type 0
    HasRoom sess s =
        ((w : ServerSession) × (lookup sess.id s.mgr.sessions ≡ some w))
        ⊎ (length s.mgr.sessions < 1024)

    pub keep_session-IsBounded :
        (sess : ServerSession) (s : Server fl rs)
        → HasRoom sess s
        → IsBounded s
        → IsBounded (keep_session fl rs sess s)
    unfolding put_session
    keep_session-IsBounded sess s room b = record {
      sessions = elim room [
        | inl (w, e) ↦ omega (arith, b.sessions, length-put_of_some sess.id sess w s.mgr.sessions e)
        | inr few ↦ omega (arith, length-put-le sess.id sess s.mgr.sessions)
      ];
      keyed =
          All-put (λ (e : ℕ × ServerSession). e.1.id ≡ e.0) sess.id sess s.mgr.sessions refl
            b.keyed;
      paths = b.paths;
    }

    pub keep_session-HasRoom :
        (sess sess' : ServerSession) (s : Server fl rs)
        → sess'.id ≡ sess.id
        → HasRoom sess' (keep_session fl rs sess s)
    unfolding put_session
    keep_session-HasRoom sess sess' s same =
        inl (sess, ground (arith, lookup-put sess.id sess'.id sess s.mgr.sessions))

    pub state_for-FewPaths :
        (id : ℕ) (s : Server fl rs) → IsBounded s → FewPaths (state_for fl rs id s)
    state_for-FewPaths id s b = elim (Option-cases (lookup id s.states)) [
      | inl e ↦ subst FewPaths (sym (elim-none _ _ e)) (omega arith)
      | inr (st, e) ↦
          subst FewPaths (sym (elim-some _ _ e))
            (All-lookup (λ (e : ℕ × SessState fl). FewPaths e.1) id s.states st b.paths e)
    ]

    pub states_with-IsBounded :
        (id : ℕ) (st : SessState fl) (s : Server fl rs)
        → FewPaths st
        → IsBounded s
        → IsBounded (states_with fl rs id st s)
    states_with-IsBounded id st s few b = record {
      sessions = b.sessions;
      keyed = b.keyed;
      paths = All-put (λ (e : ℕ × SessState fl). FewPaths e.1) id st s.states few b.paths;
    }

    -- What follows a session on its way through a handler.
    pub record Follows (sess : ServerSession) (r : ServerSession × Server fl rs) : Type 0 where
      pub same_id : r.0.id ≡ sess.id
      pub room : HasRoom r.0 r.1
      pub bounded : IsBounded r.1

    pub register_path-Follows :
        (now addr : ℕ) (payload : Option (List ℕ)) (sess : ServerSession) (s : Server fl rs)
        → HasRoom sess s
        → IsBounded s
        → Follows sess (register_path fl rs now addr payload sess s)
    unfolding register_path set_endpoint
    register_path-Follows now addr payload sess s room b =
        let few =
          register-FewPaths s.settings now addr payload (state_for fl rs sess.id s)
            (state_for-FewPaths sess.id s b) in
        let b' = states_with-IsBounded sess.id _ s few b in
        elim (Bool-cases (register fl s.settings now addr payload (state_for fl rs sess.id s)).0) [
          | inl e ↦ rw e (record { same_id = refl; room = room; bounded = b' })
          | inr e ↦ rw e (record { same_id = refl; room = room; bounded = b' })
        ]
