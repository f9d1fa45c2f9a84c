-- ===== src/TcpServer.antt =====
-- posix/tcp_server/tcp_server.c: a server that echoes what its peers send.
-- The outcomes of the system calls are given, round by round.
pub mod Accepting
pub mod Echo
mod Tests
use ohmylib.Prelude.{
  ℕ, Bool, true, false, not, ◌&&◌, Option, none, some, List, [], ◌∷◌, ◌++◌, ◌==◌, take,
  if◌then◌else◌,
}
use ohmylib.Prelude.Int.{ℤ, pos, negsuc, pos_part, ltb_ℤ}
use ohmylib.Network.{
  Event, closes, accepts, starts, receives, sends, reports, allocates, frees, fails, equals,
  Attempt, socket_loop, Served,
}

unfoldable pub socket_tcp : ℤ → List Attempt → ℤ × List Event
unfolding socket_loop
socket_tcp gai_ret attempts =
    if not (equals gai_ret (pos 0)) then (negsuc 0, fails ∷ []) else socket_loop attempts (negsuc 0)

-- One round of the loop of echo_server.
pub record EchoRound : Type 0 where
  pub poll_ret : ℤ
  pub nread : ℤ
  pub buf : List ℕ
  pub send_ret : ℤ

-- It is not finished where the rounds run out.
unfoldable pub echo_server : List EchoRound → Served
echo_server [] = record { finished = false; events = [] }
echo_server (r ∷ rs) =
    let rest = echo_server rs in
    let chunk = take (pos_part r.nread) r.buf in
    let done = receives chunk ∷ reports r.nread ∷ sends chunk ∷ [] in
    if ltb_ℤ r.poll_ret (pos 0)
    then record { finished = true; events = fails ∷ [] }
    else if equals r.poll_ret (pos 0)
    then rest
    else if equals r.nread (negsuc 0)
    then record { finished = true; events = fails ∷ [] }
    else if equals r.nread (pos 0)
    then rest
    else if not (equals r.send_ret r.nread)
    then record rest { events = done ++ (fails ∷ rest.events) }
    else record rest { events = done ++ rest.events }

-- One round of the loop of tcp_server.
pub record AcceptRound : Type 0 where
  pub calloc_ok : Bool
  pub listen_ret : ℤ
  pub accept_ret : ℤ
  pub create_ret : ℤ

-- It returns -1 where it is finished. The result of pthread_create is not tested; where it is not
-- 0, no thread starts, and the descriptor and its struct are left.
unfoldable pub tcp_server : List AcceptRound → Served
tcp_server [] = record { finished = false; events = [] }
tcp_server (r ∷ rs) =
    let rest = tcp_server rs in
    if not r.calloc_ok
    then record { finished = true; events = [] }
    else if ltb_ℤ r.listen_ret (pos 0)
    then record { finished = true; events = allocates ∷ fails ∷ frees ∷ [] }
    else if ltb_ℤ r.accept_ret (pos 0)
    then record { finished = true; events = allocates ∷ fails ∷ frees ∷ [] }
    else if equals r.create_ret (pos 0)
    then record rest {
      events = allocates ∷ accepts r.accept_ret ∷ starts r.accept_ret ∷ rest.events;
    }
    else record rest { events = allocates ∷ accepts r.accept_ret ∷ rest.events }

-- What main returns, `none` while it serves, and the calls in order.
unfoldable pub main : ℤ → List Attempt → ℤ → List AcceptRound → Option ℤ × List Event
unfolding socket_tcp tcp_server
main gai_ret attempts port_ret rounds =
    let (sd, es) = socket_tcp gai_ret attempts in
    let served = tcp_server rounds in
    if ltb_ℤ sd (pos 0)
    then (some (negsuc 0), es ++ (fails ∷ []))
    else if ltb_ℤ port_ret (pos 0)
    then (some (negsuc 0), es ++ (fails ∷ closes sd ∷ []))
    else if served.finished
    then (some (pos 0), es ++ (served.events ++ (closes sd ∷ [])))
    else (none, es ++ served.events)
