-- ===== src/TcpServer/Tests.antt =====
-- Rounds of the server's loops.
use ohmylib.Prelude.{◌≡◌, refl, false, List, [], ◌∷◌}
use ohmylib.Prelude.Int.{pos, negsuc}
use ohmylib.Network.{receives, sends, reports, fails, equals, Attempt}
use ohmylib.Prelude.{count}
use ohmylib.Network.Sockets.{is_open, is_close}
use ohmylib.TcpServer.{socket_tcp, EchoRound, echo_server}
use ohmylib.TcpServer.Accepting.{socket_tcp_lem}

abbrev busy : Attempt
busy = record { socket_ret = pos 3; bind_ok = false }

-- Two bytes arrive, and then poll fails.
abbrev two_rounds : List EchoRound
two_rounds =
    record { poll_ret = pos 1; nread = pos 2; buf = 7 ∷ 8 ∷ 9 ∷ []; send_ret = pos 2 }
    ∷ record { poll_ret = negsuc 0; nread = pos 0; buf = []; send_ret = pos 0 }
    ∷ []

echoes :
    (echo_server two_rounds).events
    ≡ receives (7 ∷ 8 ∷ []) ∷ reports (pos 2) ∷ sends (7 ∷ 8 ∷ []) ∷ fails ∷ []
unfolding echo_server equals
echoes = refl

socket_tcp_example :
    ((socket_tcp (pos 0) (busy ∷ [])).0 ≡ pos 3)
    × (count is_open (socket_tcp (pos 0) (busy ∷ [])).1
        ≡ count is_close (socket_tcp (pos 0) (busy ∷ [])).1)
socket_tcp_example =
    socket_tcp_lem (pos 0) (busy ∷ []) (unfold equals in refl) (unfold equals in refl)
