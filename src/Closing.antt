-- ===== src/Closing.antt =====
-- The main functions of posix/tcp_server/tcp_server.c, posix/tcp_client/tcp_client.c,
-- posix/udp_server/udp_server.c and posix/udp_client/udp_client.c: which descriptors they leave
-- open. The descriptors that tcp_server accepts are not counted.
mod Tests
use ohmylib.Prelude.{
  ℕ, zero, suc, ◌+◌, ◌≡◌, refl, arith, Bool, true, false, Bool-cases, inl, inr, Option, none, some,
  List, [], ◌∷◌, ◌++◌, length, ltb,
}
use ohmylib.Prelude.Int.{ℤ, pos, negsuc, ltb_ℤ}
use ohmylib.Network.{Address, Event, closes, connects, fails, equals, Attempt, socket_loop}
use ohmylib.Prelude.{count, count-append}
use ohmylib.Network.Sockets.{
  is_open, is_close, any_binds, returns_descriptors, Leaves, Leaves-append, Searched,
  socket_loop-Searched,
}
use ohmylib.UdpServer.{DatagramRound}
use ohmylib.UdpServer
use ohmylib.UdpClient.{ArgumentRound}
use ohmylib.UdpClient
use ohmylib.TcpServer.{AcceptRound, tcp_server}
use ohmylib.TcpServer
use ohmylib.TcpClient.{StreamRound}
use ohmylib.TcpClient

-- Calls that open and close nothing.
abbrev Quiet : List Event → Type 0
Quiet es = (count is_open es ≡ 0) × (count is_close es ≡ 0)

udp_server-Quiet : (rs : List DatagramRound) → Quiet (UdpServer.echo_server rs).events
unfolding UdpServer.echo_server
udp_server-Quiet [] = (refl, refl)
udp_server-Quiet (r ∷ rs) = let rest = udp_server-Quiet rs in ground arith

tcp_server-Quiet : (rs : List AcceptRound) → Quiet (tcp_server rs).events
unfolding tcp_server
tcp_server-Quiet [] = (refl, refl)
tcp_server-Quiet (r ∷ rs) = let rest = tcp_server-Quiet rs in ground arith

udp_client-Quiet : (peer : Address) (rs : List ArgumentRound) → Quiet (UdpClient.client peer rs).1
unfolding UdpClient.client
udp_client-Quiet peer [] = (refl, refl)
udp_client-Quiet peer (r ∷ rs) = let rest = udp_client-Quiet peer rs in ground arith

tcp_client-Quiet : (rs : List StreamRound) → Quiet (TcpClient.client rs).1
unfolding TcpClient.client
tcp_client-Quiet [] = (refl, refl)
tcp_client-Quiet (r ∷ rs) = let rest = tcp_client-Quiet rs in ground arith

-- The program fails, closes its descriptor after other calls, or goes on with it.
fails_after : (es : List Event) → Leaves es 0 → Leaves (es ++ (fails ∷ [])) 0
fails_after es l =
    rw (count-append is_open es (fails ∷ []), count-append is_close es (fails ∷ []))
      (omega (arith, l))

closes_after :
    (es fs : List Event) (sd : ℤ)
    → Leaves es 1
    → Quiet fs
    → Leaves (es ++ (fs ++ (closes sd ∷ []))) 0
closes_after es fs sd l (no_open, no_close) =
    rw
      (
        count-append is_open es (fs ++ (closes sd ∷ [])),
        count-append is_close es (fs ++ (closes sd ∷ [])),
        count-append is_open fs (closes sd ∷ []),
        count-append is_close fs (closes sd ∷ []),
      )
      (omega (arith, l, no_open, no_close))

keeps_after : (es fs : List Event) → Leaves es 1 → Quiet fs → Leaves (es ++ fs) 1
keeps_after es fs l (no_open, no_close) =
    rw (count-append is_open es fs, count-append is_close es fs)
      (omega (arith, l, no_open, no_close))

-- A main function that has not returned has one descriptor open.
abbrev pub still_open : Option ℤ → ℕ
still_open none = 1
still_open (some ret) = 0

module _ (gai_ret : ℤ) (attempts : List Attempt) (h : any_binds attempts ≡ true)
    (v : returns_descriptors attempts ≡ true) where
  udp_server_found : Searched (UdpServer.socket_udp gai_ret attempts)
  unfolding UdpServer.socket_udp
  udp_server_found = socket_loop-Searched gai_ret attempts h v

  udp_server-Leaves :
      (port_ret : ℤ) (rs : List DatagramRound)
      → let (ret, es) = UdpServer.main gai_ret attempts port_ret rs in Leaves es (still_open ret)
  unfolding UdpServer.main
  udp_server-Leaves port_ret rs =
      let (sd, es) = UdpServer.socket_udp gai_ret attempts in
      let fs = (UdpServer.echo_server rs).events in
      elim udp_server_found [
        | inl (e, l) ↦ rw e (fails_after es l)
        | inr (e, l) ↦ elim (Bool-cases (ltb_ℤ port_ret (pos 0))) [
          | inl f ↦ rw (e, f) (closes_after es (fails ∷ []) sd l (refl, refl))
          | inr f ↦ elim (Bool-cases (UdpServer.echo_server rs).finished) [
            | inl g ↦ rw (e, f, g) (closes_after es fs sd l (udp_server-Quiet rs))
            | inr g ↦ rw (e, f, g) (keeps_after es fs l (udp_server-Quiet rs))
          ]
        ]
      ]

  tcp_server_found : Searched (TcpServer.socket_tcp gai_ret attempts)
  unfolding TcpServer.socket_tcp
  tcp_server_found = socket_loop-Searched gai_ret attempts h v

  tcp_server-Leaves :
      (port_ret : ℤ) (rs : List AcceptRound)
      → let (ret, es) = TcpServer.main gai_ret attempts port_ret rs in Leaves es (still_open ret)
  unfolding TcpServer.main
  tcp_server-Leaves port_ret rs =
      let (sd, es) = TcpServer.socket_tcp gai_ret attempts in
      let fs = (tcp_server rs).events in
      elim tcp_server_found [
        | inl (e, l) ↦ rw e (fails_after es l)
        | inr (e, l) ↦ elim (Bool-cases (ltb_ℤ port_ret (pos 0))) [
          | inl f ↦ rw (e, f) (closes_after es (fails ∷ []) sd l (refl, refl))
          | inr f ↦ elim (Bool-cases (tcp_server rs).finished) [
            | inl g ↦ rw (e, f, g) (closes_after es fs sd l (tcp_server-Quiet rs))
            | inr g ↦ rw (e, f, g) (keeps_after es fs l (tcp_server-Quiet rs))
          ]
        ]
      ]

  udp_client_found : Searched (UdpClient.socket_udp gai_ret attempts)
  unfolding UdpClient.socket_udp
  udp_client_found = socket_loop-Searched gai_ret attempts h v

  udp_client-Leaves :
      (argc : ℕ) (peer : Address) (rs : List ArgumentRound)
      → Leaves (UdpClient.main argc gai_ret attempts peer rs).1 0
  unfolding UdpClient.main
  udp_client-Leaves argc peer rs =
      let (sd, es) = UdpClient.socket_udp gai_ret attempts in
      let fs = (UdpClient.client peer rs).1 in
      elim (Bool-cases (ltb argc 3)) [
        | inl c ↦ rw c refl
        | inr c ↦ elim udp_client_found [
          | inl (e, l) ↦ rw (c, e) (fails_after es l)
          | inr (e, l) ↦ rw (c, e) (closes_after es fs sd l (udp_client-Quiet peer rs))
        ]
      ]

  tcp_client_found : Searched (TcpClient.socket_tcp gai_ret attempts)
  unfolding TcpClient.socket_tcp
  tcp_client_found = socket_loop-Searched gai_ret attempts h v

  tcp_client-Leaves :
      (argc : ℕ) (connect_ret : ℤ) (rs : List StreamRound)
      → Leaves (TcpClient.main argc gai_ret attempts connect_ret rs).1 0
  unfolding TcpClient.main
  tcp_client-Leaves argc connect_ret rs =
      let (sd, es) = TcpClient.socket_tcp gai_ret attempts in
      let fs = (TcpClient.client rs).1 in
      elim (Bool-cases (ltb argc 3)) [
        | inl c ↦ rw c refl
        | inr c ↦ elim tcp_client_found [
          | inl (e, l) ↦ rw (c, e) (fails_after es l)
          | inr (e, l) ↦ elim (Bool-cases (ltb_ℤ connect_ret (pos 0))) [
            | inl f ↦ rw (c, e, f) (closes_after es (fails ∷ []) sd l (refl, refl))
            | inr f ↦ rw (c, e, f) (closes_after es (connects sd ∷ fs) sd l (tcp_client-Quiet rs))
          ]
        ]
      ]

  -- Where socket returns -1 or a descriptor and some address can be bound, each of the four
  -- network programs, when its main returns, has closed as many descriptors as its search for
  -- a socket has opened, on every path; a server that still serves has one more open.
  pub mains-Leaves :
      (port_ret connect_ret : ℤ) (argc : ℕ) (peer : Address) (datagrams : List DatagramRound)
      (peers : List AcceptRound) (args : List ArgumentRound) (streams : List StreamRound)
      → (let (ret, es) = UdpServer.main gai_ret attempts port_ret datagrams in
          Leaves es (still_open ret))
        × (let (ret, es) = TcpServer.main gai_ret attempts port_ret peers in
            Leaves es (still_open ret))
        × Leaves (UdpClient.main argc gai_ret attempts peer args).1 0
        × Leaves (TcpClient.main argc gai_ret attempts connect_ret streams).1 0
  mains-Leaves port_ret connect_ret argc peer datagrams peers args streams = (
    udp_server-Leaves port_ret datagrams,
    tcp_server-Leaves port_ret peers,
    udp_client-Leaves argc peer args,
    tcp_client-Leaves argc connect_ret streams,
  )
