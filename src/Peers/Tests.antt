-- ===== src/Peers/Tests.antt =====
-- Rounds of the loops of servers and clients.
use ohmylib.Prelude.{◌+◌, ◌≤◌, ◌≡◌, true, List, [], ◌∷◌, length, count}
use ohmylib.Prelude.Int.{pos, negsuc}
use ohmylib.Network.Messages.{received, sent, received_from, sent_to, to_peer, up_to, Progress}
use ohmylib.Network.Sockets.{is_allocate, is_free}
use ohmylib.TcpServer.{AcceptRound, EchoRound, tcp_server}
use ohmylib.TcpServer
use ohmylib.TcpServer.Accepting.{
  accepted, served_by_thread, any_refuses, peers_before, threads_before,
}
use ohmylib.TcpServer.Echo.{closings}
use ohmylib.UdpServer.{DatagramRound}
use ohmylib.UdpServer
use ohmylib.UdpClient.{ArgumentRound}
use ohmylib.UdpClient
use ohmylib.TcpClient.{StreamRound}
use ohmylib.TcpClient
use ohmylib.Peers.{servers_lem, clients_lem}

-- Two bytes arrive, and then poll fails.
abbrev two_rounds : List EchoRound
two_rounds =
    record { poll_ret = pos 1; nread = pos 2; buf = 7 ∷ 8 ∷ 9 ∷ []; send_ret = pos 2 }
    ∷ record { poll_ret = negsuc 0; nread = pos 0; buf = []; send_ret = pos 0 }
    ∷ []

-- The second peer gets no thread.
abbrev two_peers : List AcceptRound
two_peers =
    record { calloc_ok = true; listen_ret = pos 0; accept_ret = pos 4; create_ret = pos 0 }
    ∷ record { calloc_ok = true; listen_ret = pos 0; accept_ret = pos 5; create_ret = pos 11 }
    ∷ record { calloc_ok = true; listen_ret = negsuc 0; accept_ret = pos 0; create_ret = pos 0 }
    ∷ []

-- A datagram of two bytes, an empty one, a second without any, and an error of poll.
abbrev four_rounds : List DatagramRound
four_rounds =
    record {
      poll_ret = pos 1;
      nread = pos 2;
      buf = 7 ∷ 8 ∷ [];
      peer_addr = 1 ∷ [];
      name_ret = pos 0;
      send_ret = pos 2;
    }
    ∷ record {
      poll_ret = pos 1;
      nread = pos 0;
      buf = [];
      peer_addr = 2 ∷ [];
      name_ret = pos 0;
      send_ret = pos 0;
    }
    ∷ record {
      poll_ret = pos 0;
      nread = pos 0;
      buf = [];
      peer_addr = [];
      name_ret = pos 0;
      send_ret = pos 0;
    }
    ∷ record {
      poll_ret = negsuc 0;
      nread = pos 0;
      buf = [];
      peer_addr = [];
      name_ret = pos 0;
      send_ret = pos 0;
    }
    ∷ []

servers_example :
    let es = (tcp_server two_peers).events in
    let tcp = TcpServer.echo_server two_rounds in
    let udp = UdpServer.echo_server four_rounds in
    (((tcp_server two_peers).finished ≡ any_refuses two_peers)
      × (accepted es ≡ peers_before two_peers)
      × (served_by_thread es ≡ threads_before two_peers)
      × (count is_allocate es ≡ count is_free es + length (accepted es)))
    × ((sent tcp.events ≡ received tcp.events)
        × (tcp.finished ≡ TcpServer.Echo.any_breaks two_rounds)
        × (closings tcp.events ≡ 0))
    × ((sent_to udp.events ≡ received_from udp.events)
        × (udp.finished ≡ UdpServer.Echo.any_breaks four_rounds))
servers_example = servers_lem two_peers two_rounds four_rounds

-- The second message cannot be sent.
abbrev two_arguments : List ArgumentRound
two_arguments =
    record {
      arg = 7 ∷ [];
      send_ret = pos 1;
      poll_ret = pos 1;
      nread = pos 1;
      buf = 7 ∷ [];
      from_addr = 9 ∷ [];
      name_ret = pos 0;
    }
    ∷ record {
      arg = 8 ∷ [];
      send_ret = negsuc 0;
      poll_ret = pos 0;
      nread = pos 0;
      buf = [];
      from_addr = [];
      name_ret = pos 0;
    }
    ∷ []

-- The wait for the second answer fails.
abbrev two_messages : List StreamRound
two_messages =
    record { arg = 7 ∷ []; send_ret = pos 1; poll_ret = pos 1; nread = pos 1; buf = 7 ∷ [] }
    ∷ record { arg = 8 ∷ []; send_ret = pos 1; poll_ret = negsuc 0; nread = pos 0; buf = [] }
    ∷ []

clients_example :
    let (udp_ret, udp) = UdpClient.client (9 ∷ []) two_arguments in
    let (tcp_ret, tcp) = TcpClient.client two_messages in
    (Progress
        (UdpClient.Sending.any_breaks two_arguments)
        udp_ret
        (sent_to udp)
        (to_peer (9 ∷ []) (up_to UdpClient.sizeof_buf (UdpClient.Sending.args two_arguments)))
      × (length (received_from udp) ≤ length (sent_to udp)))
    × (Progress
          (TcpClient.Sending.any_breaks two_messages)
          tcp_ret
          (sent tcp)
          (up_to TcpClient.sizeof_buf (TcpClient.Sending.args two_messages))
        × (length (received tcp) ≤ length (sent tcp)))
clients_example = clients_lem (9 ∷ []) two_arguments two_messages
