-- ===== src/UdpServer.antt =====
-- posix/udp_server/udp_server.c: a server that sends each datagram back to where it came from.
pub mod Echo
use ohmylib.Prelude.{
  ℕ, Bool, true, false, not, Option, none, some, List, [], ◌∷◌, ◌++◌, take, if◌then◌else◌,
}
use ohmylib.Prelude.Int.{ℤ, pos, negsuc, pos_part, ltb_ℤ}
use ohmylib.Network.{
  Address, Event, opens, closes, receives_from, sends_to, reports, fails, equals, Attempt,
  socket_loop, Served,
}

unfoldable pub socket_udp : ℤ → List Attempt → ℤ × List Event
unfolding socket_loop
socket_udp gai_ret attempts =
    if not (equals gai_ret (pos 0)) then (negsuc 0, fails ∷ []) else socket_loop attempts (negsuc 0)

-- One round of the loop of echo_server: what poll, recvfrom, getnameinfo and sendto return.
pub record DatagramRound : Type 0 where
  pub poll_ret : ℤ
  pub nread : ℤ
  pub buf : List ℕ
  pub peer_addr : Address
  pub name_ret : ℤ
  pub send_ret : ℤ

-- It returns -1 where it is finished, and is not finished where the rounds run out.
unfoldable pub echo_server : List DatagramRound → Served
echo_server [] = record { finished = false; events = [] }
echo_server (r ∷ rs) =
    let rest = echo_server rs in
    let chunk = take (pos_part r.nread) r.buf in
    let report = if equals r.name_ret (pos 0) then reports r.nread else fails in
    let done = receives_from r.peer_addr chunk ∷ report ∷ sends_to r.peer_addr chunk ∷ [] in
    if ltb_ℤ r.poll_ret (pos 0)
    then record { finished = true; events = fails ∷ [] }
    else if equals r.poll_ret (pos 0)
    then rest
    else if equals r.nread (negsuc 0)
    then record { finished = true; events = fails ∷ [] }
    else if equals r.nread (pos 0)
    then rest
    else if not (equals r.send_ret r.nread)
    then record rest { events = done ++ (fails ∷ rest.events) }
    else record rest { events = done ++ rest.events }

-- What main returns, `none` while it serves, and the calls in order.
unfoldable pub main : ℤ → List Attempt → ℤ → List DatagramRound → Option ℤ × List Event
unfolding socket_udp echo_server
main gai_ret attempts port_ret rounds =
    let (sd, es) = socket_udp gai_ret attempts in
    let served = echo_server rounds in
    if ltb_ℤ sd (pos 0)
    then (some (negsuc 0), es ++ (fails ∷ []))
    else if ltb_ℤ port_ret (pos 0)
    then (some (negsuc 0), es ++ (fails ∷ closes sd ∷ []))
    else if served.finished
    then (some (pos 0), es ++ (served.events ++ (closes sd ∷ [])))
    else (none, es ++ served.events)
