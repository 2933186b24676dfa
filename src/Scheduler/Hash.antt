-- ===== src/Scheduler/Hash.antt =====
-- internal/scheduler/scheduler.go: the hashes of paths and flows, and the search on the ring.
use Prim.Native.Nat.{bit_xor}
use flexbraid.Prelude.{
  ℕ, ◌+◌, ◌*◌, ◌/◌, ◌%◌, ◌^◌, ◌&&◌, ◌||◌, not, Option, none, some, List, [], ◌∷◌, length, get_or,
  uint16, uint32, ltb, leb, ◌==◌, if◌then◌else◌,
}

-- FNV-1a of an id and the index of a virtual node.
abbrev fnv_step : ℕ → ℕ → ℕ
fnv_step h x = bit_xor h x * 16_777_619 % 2 ^ 32

unfoldable fnv_bytes : ℕ → List ℕ → ℕ
fnv_bytes h [] = h
fnv_bytes h (b ∷ bs) = fnv_bytes (fnv_step h b) bs

unfoldable pub fnv1a : List ℕ → ℕ → ℕ
unfolding fnv_bytes
fnv1a id v = fnv_step (fnv_bytes 2_166_136_261 id) v

-- The hash of the addresses and the ports of an IPv4 packet.
unfoldable pub parse_inner_hash : List ℕ → Option ℕ
parse_inner_hash b =
    let ihl = get_or b 0 0 % 16 * 4 in
    let proto = get_or b 9 0 in
    let base = uint32 b 12 * 2 ^ 32 + uint32 b 16 in
    let ports = bit_xor (bit_xor base (uint16 b ihl * 2 ^ 16)) (uint16 b (ihl + 2)) in
    if ltb (length b) 20
    then none
    else if not (get_or b 0 0 / 16 == 4)
    then none
    else if ltb ihl 20 || ltb (length b) ihl
    then none
    else if (proto == 6 || proto == 17) && leb (ihl + 4) (length b)
    then some ports
    else some base

-- sort.Slice on numbers
unfoldable pub insert : ℕ → List ℕ → List ℕ
insert x [] = x ∷ []
insert x (y ∷ ys) = let rest = insert x ys in if ltb x y then x ∷ y ∷ ys else y ∷ rest

unfoldable pub sort : List ℕ → List ℕ
unfolding insert
sort [] = []
sort (x ∷ xs) = insert x (sort xs)

-- sort.Search for the first node from `h` on, and the first of all behind the last.
unfoldable pub node_from : ℕ → ℕ → List ℕ → ℕ
node_from h first [] = first
node_from h first (n ∷ ns) = let later = node_from h first ns in if leb h n then n else later
