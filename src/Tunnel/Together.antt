-- ===== src/Tunnel/Together.antt =====
-- internal/tunnel/server.go: a batch that FEC does not spread over the paths (sendToSession).
use flexbraid.Prelude.{ℕ, ◌^◌, ◌≤◌, ◌<◌, ◌≡◌, true, ◌⊎◌, some, List, [], ◌∷◌, length}
use flexbraid.Assoc.{lookup}
use flexbraid.Float.{Float}
use flexbraid.Frame.{Frame, IsFrame, has_flag, max_payload}
use flexbraid.Frame.Flag
use flexbraid.Crypto.Seal.{Aead, server_to_client}
use flexbraid.Tunnel.Wire.{unpack}
use flexbraid.Tunnel.Paths.{PathState, SessState}

-- What a frame is read as: a parity frame has a fresh seq, and a frame that is passed through has the
-- counter of its path.
pub record Reads (f g : Frame) : Type 0 where
  pub payload : g.payload ≡ f.payload
  pub flags : g.flags ≡ f.flags
  pub session_id : g.session_id ≡ f.session_id
  pub seq : (has_flag f Flag.fec_parity ≡ true) ⊎ (g.seq ≡ f.seq)
  pub block_seq : (has_flag f Flag.pass_seq ≡ true) ⊎ (g.block_seq ≡ f.block_seq)

-- One datagram for each frame, in order and to one address, that opens to the frame.
abbrev pub Delivers : Aead → ℕ → List Frame → List (ℕ × List ℕ) → Type 0
Delivers a addr [] out = out ≡ []
Delivers a addr (f ∷ fs) out =
    (bytes : List ℕ) × (rest : List (ℕ × List ℕ)) × (out ≡ (addr, bytes) ∷ rest)
    × ((g : Frame) × (unpack a server_to_client bytes ≡ some g) × Reads f g)
    × Delivers a addr fs rest

-- A frame that Encode takes.
abbrev pub Sendable : Frame → Type 0
Sendable f = IsFrame f × (length f.payload ≤ max_payload)

module _ (fl : Float) where
  open fl use {Carrier}

  -- The counter of the path is in the range of its type.
  abbrev pub IsCounter : ℕ → SessState fl → Type 0
  IsCounter addr st = (ps : PathState fl) → lookup addr st.paths ≡ some ps → ps.path_seq < 2 ^ 32

  -- What counting does to a frame and to the counter.
  Counts : ℕ → Frame → Frame × SessState fl → Type 0
  Counts addr f r =
      ((r.0.payload ≡ f.payload)
        × (r.0.flags ≡ f.flags)
        × (r.0.session_id ≡ f.session_id)
        × (r.0.seq ≡ f.seq)
        × ((has_flag f Flag.pass_seq ≡ true) ⊎ (r.0.block_seq ≡ f.block_seq)))
      × Sendable r.0
      × IsCounter addr r.1
