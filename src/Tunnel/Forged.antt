-- ===== src/Tunnel/Forged.antt =====
-- internal/tunnel: a datagram that no key opens changes nothing.
use flexbraid.Prelude.{
  ℕ, ◌≡◌, ◌∙◌, false, none, some, List, arith, inl, inr, Option-cases, elim-none, elim-some,
}
use flexbraid.Float.{Float}
use flexbraid.Frame.{decode_header}
use flexbraid.Fec.{ReedSolomon}
use flexbraid.Crypto.Seal.{Aead, open_, client_to_server, server_to_client}
use flexbraid.Crypto.Kdf.{Library}
use flexbraid.Session.{ServerSession, get_session}
use flexbraid.Tunnel.Wire.{unpack-none, elim-header}
use flexbraid.Tunnel.Announce.{Json}
use flexbraid.Tunnel.Client.{
  TunnelClient, Uplink, nothing, receive, handle_kex_ack, open_and_verify, take_frame,
}
use flexbraid.Tunnel.Server.{
  Server, Supply, silence, handle_client_frame, handle_first, handle_data,
}

module _ (fl : Float) (rs : ReedSolomon) (lib : Library) where
  module _ (now addr : ℕ) (sealed : List ℕ) (supply : Supply) (s : Server fl rs) where
    first-forged :
        (id seq : ℕ)
        → open_ s.base_aead client_to_server sealed ≡ none
        → handle_first fl rs lib now addr id seq sealed supply s ≡ (silence fl rs, s)
    unfolding handle_first
    first-forged id seq h = elim-none _ _ (unpack-none s.base_aead client_to_server sealed h)

    data-forged :
        (id seq : ℕ)
        → ((sess : ServerSession)
            → get_session id s.mgr ≡ some sess
            → open_ sess.aead client_to_server sealed ≡ none)
        → handle_data fl rs lib now addr id seq sealed s ≡ (silence fl rs, s)
    unfolding handle_data
    data-forged id seq h = elim (Option-cases (get_session id s.mgr)) [
      | inl e ↦ elim-none _ _ e
      | inr (sess, e) ↦ elim-some _ _ e ∙ elim-none _ _ (h sess e)
    ]

    -- A datagram that neither the base key nor the key of any session opens leaves the server as it
    -- was, and the server stays silent.
    pub server_ignores_forged :
        open_ s.base_aead client_to_server sealed ≡ none
        → ((id : ℕ) (sess : ServerSession)
            → get_session id s.mgr ≡ some sess
            → open_ sess.aead client_to_server sealed ≡ none)
        → handle_client_frame fl rs lib now addr sealed supply s ≡ (silence fl rs, s)
    unfolding handle_client_frame
    server_ignores_forged h h' =
        elim-header (decode_header sealed) (silence fl rs, s) _
          λ hdr. ground (
            arith,
            first-forged hdr.session_id hdr.seq h,
            data-forged hdr.session_id hdr.seq (h' hdr.session_id),
          )

  module _ (now : ℕ) (sealed : List ℕ) (u : Uplink) (c : TunnelClient fl) where
    ack-forged :
        (json : Json fl)
        → open_ c.base_aead server_to_client sealed ≡ none
        → handle_kex_ack fl lib rs json sealed c ≡ (false, c)
    unfolding handle_kex_ack
    ack-forged json h = elim-none _ _ (unpack-none c.base_aead server_to_client sealed h)

    frame-forged :
        ((a : Aead) → c.sess_aead ≡ some a → open_ a server_to_client sealed ≡ none)
        → open_and_verify fl sealed c ≡ (none, c)
    unfolding open_and_verify
    frame-forged h =
        elim-header (decode_header sealed) (none, c) _
          λ hdr. elim (Option-cases c.sess_aead) [
            | inl e ↦ ground arith
            | inr (a, e) ↦
                (let shut = unpack-none a server_to_client sealed (h a e) in ground arith)
          ]

    -- A datagram that neither the base key nor the session key opens leaves the client and the WAN as
    -- they were, and nothing is decoded.
    client_ignores_forged :
        (json : Json fl)
        → open_ c.base_aead server_to_client sealed ≡ none
        → ((a : Aead) → c.sess_aead ≡ some a → open_ a server_to_client sealed ≡ none)
        → receive fl lib rs json now sealed u c ≡ (nothing, u, c)
    unfolding receive take_frame
    client_ignores_forged json h h' =
        elim-header (decode_header sealed) (nothing, u, c) _
          λ hdr. ground (arith, ack-forged json h, frame-forged h')
