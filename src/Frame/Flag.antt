-- ===== src/Frame/Flag.antt =====
-- internal/frame/frame.go: the bits of the flags byte.
use Prim.Native.Nat.{ℕ}

abbrev pub fec_parity : ℕ
fec_parity = 1

abbrev pub keepalive : ℕ
keepalive = 2

abbrev pub control : ℕ
control = 4

abbrev pub first : ℕ
first = 8

abbrev pub pong : ℕ
pong = 16

abbrev pub kex : ℕ
kex = 32

abbrev pub pass_seq : ℕ
pass_seq = 64
