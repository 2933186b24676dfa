-- ===== src/Transport/Panics.antt =====
-- internal/transport/icmp.go: the datagrams on which the parser indexes a slice out of its range.
use flexbraid.Prelude.{ℕ, ◌+◌, ◌≤◌, ◌<◌, ◌≡◌, ◌↔◌, ◌⊎◌, false, List, arith, get_or}
use flexbraid.Transport.{panics}
use flexbraid.Transport.Ip.{header_len, total_len, skips, body, length-body}
use flexbraid.Transport.Icmp.{echo_request, echo_reply, echo_of, parse_echo}

-- The parser panics exactly on an unskipped datagram whose total length field ends in the IP header,
-- or in the ICMP header of an echo.
pub parse_echo-panics_iff :
    (b : List ℕ)
    → (parse_echo b ≡ panics) ↔ (
        (skips 28 8 1 b ≡ false)
        × ((total_len b ≤ header_len b)
            ⊎ ((total_len b < header_len b + 8)
                × ((get_or (body b) 0 0 ≡ echo_request) ⊎ (get_or (body b) 0 0 ≡ echo_reply)))))
unfolding parse_echo echo_of
parse_echo-panics_iff b = ground (arith, length-body b)
