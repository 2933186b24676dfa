-- ===== src/Lib.antt =====
-- FlexBraid, a multi-WAN bonding tunnel (internal/, cmd/).
--
-- A client spreads the datagrams of an inner peer over several uplinks and a server puts them
-- together again, and the other way round. The modelled parts and where they stand:
--   Frame      internal/frame/frame.go: Encode, DecodeHeader, Decode are `encode`, `decode_header`,
--              `decode`; bytes are numbers, and `IsFrame` states the ranges of Go's field types.
--   Delivery   internal/tunnel/delivery.go: Push is `push`, a fold of `accept` over the frames, each
--              with the clock reading of its round; Tick is `tick`; drainContiguous is `drain`.
--   SendQueue  internal/tunnel/wanqueue.go: enqueue, popNext, close are `enqueue`, `pop_next` (one
--              round of its loop), `close`; takeTokens is `Bucket.take_round`, one round again, with
--              `Bucket.IsBounding` for what is relied on of float64.
--   Health     internal/health/health.go: each method of Monitor is a function on `Monitor`.
--   Fec        internal/fec/fec.go: the encoder (`Encoder`, `Redundancy`), the wire form of a parity
--              frame (`SubHeader`), the decoder (`Block` for one block, `Decoder` for the maps of a
--              session, `PathStats` for observePathSeq and flushPathGaps). The Reed-Solomon library
--              is the parameter `ReedSolomon`, with `Block.Shards.IsMds` for what is relied on.
--   Crypto     internal/crypto/crypto.go: `Replay` is ReplayWindow, `Seal` is Seal, Open and
--              makeNonce; the cipher is the parameter `Aead`, with `IsAead` for what is relied on.
--              `Kdf` is internal/crypto/pfs.go and the key derivation; HMAC, X25519 and the
--              ciphers are the parameter `Library`.
--   Session    internal/session/session.go: the sessions, the manager's tables and the handshake
--              windows. A table is an association list; random IDs are inputs.
--   Scheduler  internal/scheduler/scheduler.go: Pick, PickWRR and the changes of paths; the random
--              number is an argument, sort and sort.Search are `sort` and `node_from`.
--   Config     internal/config/config.go: Validate is `validate`, which returns the document that the
--              source fills in in place; `Coding` is its FEC section, `Uplinks` its loop over the WANs.
--              Whether an address resolves is the parameter `Net`.
--   Tunnel     internal/tunnel/tunnel.go: `Params` is fecParamsFor and what is derived from it,
--              `Announce` is applyAnnounce on the codec slots of the client and fecTickInterval; a
--              codec stands for its parameters. JSON is the parameter `Json`. `Client` is the client's
--              handshake, sendLocked and a round of recvLoop; `Paths` and `Server` are the server's
--              handleClientFrame with registerPath and observeKeepalive
--              (internal/tunnel/server.go), `Egress` is sendToSession with pickPath and
--              pickCrossPath; `Wire` is what both ends do to a frame.
--   Transport  internal/transport/icmp.go, internal/transport/faketcp.go: `Checksum`; `Ip`, the guards
--              that the two parsers share; `Icmp` and `ReplyQueue`; `FakeTcp`, the segments and the
--              counters of the peers. A slice out of range is the result `panics`.
--   Float      float64 as a parameter: its operations. No law of them is assumed but where a theorem
--              names it (`SendQueue.Bucket.IsBounding`).
--   Assoc      Go maps as association lists; the order of a list stands for any visiting order.
--   Prelude    tests, lists, big-endian accessors, signed integers.
--
-- The tunnel loops feed frames from the receive loops to the delivery buffer, from the ingress loop
-- to the send queues, and probe outcomes to the monitors; mutexes make each method atomic, so that a
-- history is a sequence of calls. Times are nanoseconds as natural numbers and the zero time is
-- `none`. Unsigned integers wrap where the source's do; int and int64 are taken as unbounded.
--
-- Fuel: `drain` and `Fec.PathStats.drain_path_pending` recur on as many rounds as there are entries,
-- and each round removes one; that this is enough is part of the proofs that the awaited number
-- never waits (`Delivery.Invariant.IsValid`, `Fec.PathStats.Ledger.Ledger`).
-- `fold_loop` has two rounds, of which a number of 32 bits needs no more, and `digits` has as many
-- rounds as the number it prints, which has fewer digits than that. `expand` has as many rounds as bytes
-- are wanted, and each round adds one at least (`Crypto.Kdf`).
--
-- Not modelled: the reading of the configuration file, the batches that the client sends,
-- the tick loops of both ends, the reload, telemetry. Sockets,
-- goroutines, logging and the start of the process are left out as pure I/O.
pub mod Prelude
pub mod Assoc
pub mod Frame
pub mod Delivery
pub mod SendQueue
pub mod Float
pub mod Health
pub mod Fec
pub mod Crypto
pub mod Session
pub mod Scheduler
pub mod Config
pub mod Tunnel
pub mod Transport
