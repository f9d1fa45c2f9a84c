-- ===== src/Exchange.antt =====
-- posix/udp_client/udp_client.c against posix/udp_server/udp_server.c, over a network that loses,
-- reorders and delays nothing. The answers that the client gets are those of the server's loop.
pub mod Replies
mod Tests
use ohmylib.Prelude.{ℕ, List, [], ◌∷◌, length}
use ohmylib.Prelude.Int.{pos}
use ohmylib.Network.{Address}
use ohmylib.Network.Messages.{Datagram, sent_to}
use ohmylib.UdpServer.{DatagramRound, echo_server}
use ohmylib.UdpClient.{ArgumentRound}

-- The server's round for a datagram that arrives.
abbrev pub arrives : Address → List ℕ → DatagramRound
arrives peer m = record {
  poll_ret = pos 1;
  nread = pos (length m);
  buf = m;
  peer_addr = peer;
  name_ret = pos 0;
  send_ret = pos (length m);
}

abbrev pub arrivals : Address → List Datagram → List DatagramRound
arrivals peer [] = []
arrivals peer ((_, m) ∷ ds) = arrives peer m ∷ arrivals peer ds

-- The client's round for its argument `m`, with the replies that come within a second.
abbrev pub answered : Address → List ℕ → List Datagram → ArgumentRound
answered server m [] = record {
  arg = m;
  send_ret = pos (length m);
  poll_ret = pos 0;
  nread = pos 0;
  buf = [];
  from_addr = [];
  name_ret = pos 0;
}
answered server m ((_, d) ∷ ds) = record {
  arg = m;
  send_ret = pos (length m);
  poll_ret = pos 1;
  nread = pos (length d);
  buf = d;
  from_addr = server;
  name_ret = pos 0;
}

-- What the server at `server` sends for a datagram of the client at `peer`.
abbrev pub replies : Address → List ℕ → List Datagram
replies peer m = sent_to (echo_server (arrives peer m ∷ [])).events

abbrev pub exchange : Address → Address → List (List ℕ) → List ArgumentRound
exchange peer server [] = []
exchange peer server (m ∷ ms) = answered server m (replies peer m) ∷ exchange peer server ms
