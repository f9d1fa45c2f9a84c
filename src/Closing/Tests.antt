-- ===== src/Closing/Tests.antt =====
-- The second address can be bound.
use ohmylib.Prelude.{refl, true, false, List, [], ◌∷◌}
use ohmylib.Prelude.Int.{pos, negsuc}
use ohmylib.Network.{equals, Attempt}
use ohmylib.Network.Sockets.{Leaves}
use ohmylib.UdpServer
use ohmylib.UdpClient
use ohmylib.TcpServer
use ohmylib.TcpClient
use ohmylib.Closing.{still_open, mains-Leaves}

abbrev second_free : List Attempt
second_free =
    record { socket_ret = pos 3; bind_ok = false }
    ∷ record { socket_ret = pos 3; bind_ok = true }
    ∷ []

mains_example :
    (let (ret, es) = UdpServer.main (pos 0) second_free (pos 0) [] in Leaves es (still_open ret))
    × (let (ret, es) = TcpServer.main (pos 0) second_free (pos 0) [] in Leaves es (still_open ret))
    × Leaves (UdpClient.main 3 (pos 0) second_free [] []).1 0
    × Leaves (TcpClient.main 3 (pos 0) second_free (negsuc 0) []).1 0
mains_example =
    mains-Leaves (pos 0) second_free (unfold equals in refl) (unfold equals in refl) (pos 0)
      (negsuc 0) 3 [] [] [] [] []
