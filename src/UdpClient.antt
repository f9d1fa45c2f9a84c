-- ===== src/UdpClient.antt =====
-- posix/udp_client/udp_client.c: a client that sends its arguments as datagrams and waits for
-- one datagram after each.
pub mod Sending
use ohmylib.Prelude.{ℕ, Bool, not, List, [], ◌∷◌, ◌++◌, take, length, ltb, if◌then◌else◌}
use ohmylib.Prelude.Int.{ℤ, pos, negsuc, pos_part, ltb_ℤ}
use ohmylib.Network.{
  Address, Event, closes, receives_from, sends_to, reports, fails, equals, Attempt, socket_loop,
}

unfoldable pub socket_udp : ℤ → List Attempt → ℤ × List Event
unfolding socket_loop
socket_udp gai_ret attempts =
    if not (equals gai_ret (pos 0)) then (negsuc 0, fails ∷ []) else socket_loop attempts (negsuc 0)

-- sizeof(buf)
abbrev pub sizeof_buf : ℕ
sizeof_buf = 1500

-- An argument of the program, and what sendto, poll, recvfrom and getnameinfo return in its round.
pub record ArgumentRound : Type 0 where
  pub arg : List ℕ
  pub send_ret : ℤ
  pub poll_ret : ℤ
  pub nread : ℤ
  pub buf : List ℕ
  pub from_addr : Address
  pub name_ret : ℤ

-- `peer` is the address that the first two arguments give.
unfoldable pub client : Address → List ArgumentRound → ℤ × List Event
client peer [] = (pos 0, [])
client peer (r ∷ rs) =
    let (ret, es) = client peer rs in
    let sending = sends_to peer r.arg in
    let report = if equals r.name_ret (pos 0) then reports r.nread else fails in
    if ltb sizeof_buf (length r.arg)
    then (ret, fails ∷ es)
    else if not (equals r.send_ret (pos (length r.arg)))
    then (negsuc 0, sending ∷ fails ∷ [])
    else if ltb_ℤ r.poll_ret (pos 0)
    then (negsuc 0, sending ∷ fails ∷ [])
    else if equals r.poll_ret (pos 0)
    then (ret, sending ∷ es)
    else if equals r.nread (negsuc 0)
    then (negsuc 0, sending ∷ fails ∷ [])
    else if equals r.nread (pos 0)
    then (ret, sending ∷ es)
    else (ret, sending ∷ receives_from r.from_addr (take (pos_part r.nread) r.buf) ∷ report ∷ es)

-- The rounds are those of the arguments from the third on. The result of client is not tested.
unfoldable pub main : ℕ → ℤ → List Attempt → Address → List ArgumentRound → ℤ × List Event
unfolding socket_udp client
main argc gai_ret attempts peer rounds =
    let (sd, es) = socket_udp gai_ret attempts in
    if ltb argc 3
    then (negsuc 0, fails ∷ [])
    else if ltb_ℤ sd (pos 0)
    then (negsuc 0, es ++ (fails ∷ []))
    else (pos 0, es ++ ((client peer rounds).1 ++ (closes sd ∷ [])))
