-- ===== src/Exchange/Tests.antt =====
-- Two messages and an empty one.
use ohmylib.Prelude.{ℕ, ◌≡◌, refl, List, [], ◌∷◌}
use ohmylib.Prelude.Int.{pos}
use ohmylib.Network.Messages.{received_from, sent_to, to_peer, up_to}
use ohmylib.UdpServer.{echo_server}
use ohmylib.UdpClient.{sizeof_buf, client}
use ohmylib.Exchange.{arrivals, exchange}
use ohmylib.Exchange.Replies.{nonempty, exchange_lem}

abbrev messages : List (List ℕ)
messages = (1 ∷ 2 ∷ []) ∷ [] ∷ (3 ∷ []) ∷ []

answers : nonempty (up_to sizeof_buf messages) ≡ (1 ∷ 2 ∷ []) ∷ (3 ∷ []) ∷ []
answers = refl

exchange_example :
    let (ret, es) = client (2 ∷ []) (exchange (1 ∷ []) (2 ∷ []) messages) in
    let served = echo_server (arrivals (1 ∷ []) (sent_to es)) in
    (ret ≡ pos 0)
    × (sent_to es ≡ to_peer (2 ∷ []) (up_to sizeof_buf messages))
    × (received_from es ≡ to_peer (2 ∷ []) (nonempty (up_to sizeof_buf messages)))
    × (sent_to served.events ≡ to_peer (1 ∷ []) (nonempty (up_to sizeof_buf messages)))
exchange_example = exchange_lem (1 ∷ []) (2 ∷ []) messages
