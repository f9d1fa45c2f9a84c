-- ===== src/TcpClient.antt =====
-- posix/tcp_client/tcp_client.c: a client that connects, sends its arguments, and reads after
-- each what has arrived.
pub mod Sending
use ohmylib.Prelude.{ℕ, Bool, not, List, [], ◌∷◌, ◌++◌, take, length, ltb, if◌then◌else◌}
use ohmylib.Prelude.Int.{ℤ, pos, negsuc, pos_part, ltb_ℤ}
use ohmylib.Network.{
  Event, closes, connects, receives, sends, reports, fails, equals, Attempt, socket_loop,
}

unfoldable pub socket_tcp : ℤ → List Attempt → ℤ × List Event
unfolding socket_loop
socket_tcp gai_ret attempts =
    if not (equals gai_ret (pos 0)) then (negsuc 0, fails ∷ []) else socket_loop attempts (negsuc 0)

-- sizeof(buf)
abbrev pub sizeof_buf : ℕ
sizeof_buf = 1500

-- An argument of the program, and what send, poll and recv return in its round.
pub record StreamRound : Type 0 where
  pub arg : List ℕ
  pub send_ret : ℤ
  pub poll_ret : ℤ
  pub nread : ℤ
  pub buf : List ℕ

unfoldable pub client : List StreamRound → ℤ × List Event
client [] = (pos 0, [])
client (r ∷ rs) =
    let (ret, es) = client rs in
    if ltb sizeof_buf (length r.arg)
    then (ret, fails ∷ es)
    else if not (equals r.send_ret (pos (length r.arg)))
    then (negsuc 0, sends r.arg ∷ fails ∷ [])
    else if ltb_ℤ r.poll_ret (pos 0)
    then (negsuc 0, sends r.arg ∷ fails ∷ [])
    else if equals r.poll_ret (pos 0)
    then (ret, sends r.arg ∷ es)
    else if equals r.nread (negsuc 0)
    then (negsuc 0, sends r.arg ∷ fails ∷ [])
    else if equals r.nread (pos 0)
    then (ret, sends r.arg ∷ es)
    else (ret, sends r.arg ∷ receives (take (pos_part r.nread) r.buf) ∷ reports r.nread ∷ es)

-- The rounds are those of the arguments from the third on. The result of client is not tested.
unfoldable pub main : ℕ → ℤ → List Attempt → ℤ → List StreamRound → ℤ × List Event
unfolding socket_tcp client
main argc gai_ret attempts connect_ret rounds =
    let (sd, es) = socket_tcp gai_ret attempts in
    if ltb argc 3
    then (negsuc 0, fails ∷ [])
    else if ltb_ℤ sd (pos 0)
    then (negsuc 0, es ++ (fails ∷ []))
    else if ltb_ℤ connect_ret (pos 0)
    then (negsuc 0, es ++ (fails ∷ closes sd ∷ []))
    else (pos 0, es ++ (connects sd ∷ (client rounds).1 ++ (closes sd ∷ [])))
