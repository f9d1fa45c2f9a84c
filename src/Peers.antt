-- ===== src/Peers.antt =====
-- The two servers, posix/tcp_server/tcp_server.c and posix/udp_server/udp_server.c, and the two
-- clients, posix/tcp_client/tcp_client.c and posix/udp_client/udp_client.c, side by side.
mod Tests
use ohmylib.Prelude.{◌+◌, ◌≤◌, ◌≡◌, List, length, count}
use ohmylib.Network.{Address}
use ohmylib.Network.Messages.{received, sent, received_from, sent_to, to_peer, up_to, Progress}
use ohmylib.Network.Sockets.{is_allocate, is_free}
use ohmylib.TcpServer.{AcceptRound, EchoRound, tcp_server}
use ohmylib.TcpServer
use ohmylib.TcpServer.Accepting.{
  accepted, served_by_thread, any_refuses, peers_before, threads_before, tcp_server_lem,
}
use ohmylib.TcpServer.Echo.{closings, echo_server_lem}
use ohmylib.UdpServer.{DatagramRound}
use ohmylib.UdpServer
use ohmylib.UdpServer.Echo.{udp_echo_lem}
use ohmylib.UdpClient.{ArgumentRound}
use ohmylib.UdpClient
use ohmylib.UdpClient.Sending.{udp_client_lem}
use ohmylib.TcpClient.{StreamRound}
use ohmylib.TcpClient
use ohmylib.TcpClient.Sending.{tcp_client_lem}

-- tcp_server ends exactly where a call of calloc, listen or accept fails; it has accepted the
-- descriptors before, and started a thread for each of them for which pthread_create returns
-- 0, in order; of the structs that it allocates it frees all but one for each descriptor that
-- it has accepted, with a thread or without; echo_server of the one server hands to send the
-- chunks that it received, and that of the other hands to sendto the datagrams, each with the
-- address that it came from, in order and each once; either loop ends exactly where a call of
-- poll fails, or one of recv or recvfrom does after poll has reported data; and the thread
-- closes no descriptor.
pub servers_lem :
    (peers : List AcceptRound) (chunks : List EchoRound) (datagrams : List DatagramRound)
    → let es = (tcp_server peers).events in
      let tcp = TcpServer.echo_server chunks in
      let udp = UdpServer.echo_server datagrams in
      (((tcp_server peers).finished ≡ any_refuses peers)
        × (accepted es ≡ peers_before peers)
        × (served_by_thread es ≡ threads_before peers)
        × (count is_allocate es ≡ count is_free es + length (accepted es)))
      × ((sent tcp.events ≡ received tcp.events)
          × (tcp.finished ≡ TcpServer.Echo.any_breaks chunks)
          × (closings tcp.events ≡ 0))
      × ((sent_to udp.events ≡ received_from udp.events)
          × (udp.finished ≡ UdpServer.Echo.any_breaks datagrams))
servers_lem peers chunks datagrams =
    (tcp_server_lem peers, echo_server_lem chunks, udp_echo_lem datagrams)

-- Either none of the calls of sendto or send, poll, and recvfrom or recv that a client makes
-- for an argument of at most 1500 bytes fails, it returns 0 and has handed just these
-- arguments, in order, to calls of sendto or send, or one of those calls fails, it returns -1
-- and has handed over a beginning of them, the last one by a call that may have failed; in
-- both cases getnameinfo may fail; and it has received no more pieces of data than it has
-- handed over messages.
pub clients_lem :
    (peer : Address) (datagrams : List ArgumentRound) (chunks : List StreamRound)
    → let (udp_ret, udp) = UdpClient.client peer datagrams in
      let (tcp_ret, tcp) = TcpClient.client chunks in
      (Progress
          (UdpClient.Sending.any_breaks datagrams)
          udp_ret
          (sent_to udp)
          (to_peer peer (up_to UdpClient.sizeof_buf (UdpClient.Sending.args datagrams)))
        × (length (received_from udp) ≤ length (sent_to udp)))
      × (Progress
            (TcpClient.Sending.any_breaks chunks)
            tcp_ret
            (sent tcp)
            (up_to TcpClient.sizeof_buf (TcpClient.Sending.args chunks))
          × (length (received tcp) ≤ length (sent tcp)))
clients_lem peer datagrams chunks = (udp_client_lem peer datagrams, tcp_client_lem chunks)
