-- ===== src/Transport/Acks.antt =====
-- internal/transport/faketcp.go: the acknowledgements of one end follow the sequence numbers of the
-- other.
use flexbraid.Prelude.{
  ℕ, ◌≡◌, refl, sym, ap, ◌∙◌, true, some, List, ◌==◌, ==_refl, if-true, elim-some,
}
use flexbraid.Assoc.{lookup, lookup_or, put, lookup_or-put_same}
use flexbraid.Transport.{Parsed, ignored, panics, parsed}
use flexbraid.Transport.FakeTcp.{
  octets, build_segment, Segment, parse_segment, PeerState, new_peer, number, emit, track, FakeTcp,
  send, recv, note, psh_ack, syn,
}
use flexbraid.Transport.SegmentTrip.{IsSegment, read_back, parse-built}

elim-parsed {κ} :
    {B : Type κ} {o : Parsed Segment} (x y : B) (f : Segment → B) {g : Segment}
    → o ≡ parsed g
    → (elim o as (λ _. B) [ panics ↦ x | ignored ↦ y | parsed v ↦ f v ]) ≡ f g
elim-parsed x y f e = rw e refl

-- A client that has sent before sends `payload`, and the server whose port that is receives the
-- segment: it takes the payload, and what it will acknowledge to that client is the sequence
-- number that the client goes on with.
pub acks_follow :
    (ident rand : ℕ) (payload : List ℕ) (c s : FakeTcp) (st : PeerState)
    → lookup 0 c.peers ≡ some st
    → st.sent ≡ true
    → s.srv ≡ true
    → s.server_port ≡ c.client_dst.port
    → IsSegment c.client_src c.client_dst st.my_seq st.peer_seq psh_ack payload
    → (bytes : List ℕ) × (c' : FakeTcp) × (g : Segment) × (s' : FakeTcp) × (send ident payload c
        ≡ some (bytes, c'))
      × (recv rand bytes s ≡ parsed (g, s'))
      × (g.payload ≡ payload)
      × ((lookup_or
            (new_peer rand)
            (number (octets c.client_src.addr) c.client_src.port)
            s'.peers).peer_seq
          ≡ (lookup_or (new_peer rand) 0 c'.peers).my_seq)
unfolding send recv emit note track
acks_follow ident rand payload c s st known sent srv port h =
    let src = c.client_src in
    let dst = c.client_dst in
    let flags = λ (f : ℕ). build_segment ident src dst st.my_seq st.peer_seq f payload in
    let (bytes, st') = emit syn ident src dst payload st in
    let g = read_back src dst st.my_seq st.peer_seq psh_ack payload h (octets src.addr) in
    let key = number (octets src.addr) src.port in
    let seen : parse_segment bytes ≡ parsed g =
      ap (λ f. parse_segment (flags f)) (if-true _ _ sent)
      ∙ parse-built src dst st.my_seq st.peer_seq psh_ack payload h ident in
    let ours : (dst.port == s.server_port) ≡ true = rw port (==_refl dst.port) in
    (
      bytes,
      record c { peers = put 0 st' c.peers },
      g,
      note rand key g s,
      elim-some _ _ known,
      elim-parsed _ _ _ seen ∙ if-true _ _ srv ∙ if-true _ _ ours,
      refl,
      ap (λ p. p.peer_seq)
            (lookup_or-put_same (new_peer rand) key
              (track g (lookup_or (new_peer rand) key s.peers)) s.peers)
          ∙ sym (ap (λ p. p.my_seq) (lookup_or-put_same (new_peer rand) 0 st' c.peers)),
    )
