-- ===== src/Exchange/Replies.antt =====
-- What client and server send to each other.
use ohmylib.Prelude.{
  ℕ, suc, ◌≡◌, refl, sym, ap, ◌∙◌, arith, true, false, Bool-cases, inl, inr, List, [], ◌∷◌, take,
  length, ltb,
}
use ohmylib.Prelude.Int.{pos, negsuc}
use ohmylib.Network.{Address, fails, equals}
use ohmylib.Network.Messages.{Datagram, received_from, sent_to, to_peer, up_to}
use ohmylib.UdpServer.{DatagramRound, echo_server}
use ohmylib.UdpClient.{sizeof_buf, ArgumentRound, client}
use ohmylib.Exchange.{arrives, arrivals, replies, answered, exchange}

abbrev pub nonempty : List (List ℕ) → List (List ℕ)
nonempty [] = []
nonempty ([] ∷ ms) = nonempty ms
nonempty ((x ∷ xs) ∷ ms) = (x ∷ xs) ∷ nonempty ms

take-length {ℓ} : {A : Type ℓ} (xs : List A) → take (length xs) xs ≡ xs
take-length [] = refl
take-length (x ∷ xs) = ap (λ ys. x ∷ ys) (take-length xs)

equals_self : (n : ℕ) → equals (pos n) (pos n) ≡ true
unfolding equals
equals_self n = ground arith

equals-suc : (n : ℕ) → equals (pos (suc n)) (pos 0) ≡ false
unfolding equals
equals-suc n = ground arith

equals_negsuc : (n : ℕ) → equals (pos n) (negsuc 0) ≡ false
unfolding equals
equals_negsuc n = ground arith

-- An answer to a datagram that has bytes, and to no other.
abbrev reply_to : Address → List ℕ → List Datagram → List Datagram
reply_to peer [] ds = ds
reply_to peer (x ∷ xs) ds = (peer, x ∷ xs) ∷ ds

echo_server-arrives :
    (peer : Address) (m : List ℕ) (rs : List DatagramRound)
    → sent_to (echo_server (arrives peer m ∷ rs)).events
      ≡ reply_to peer m (sent_to (echo_server rs).events)
unfolding echo_server equals
echo_server-arrives peer [] rs = refl
echo_server-arrives peer (x ∷ xs) rs =
    rw
      (
        equals-suc (length xs),
        equals_negsuc (suc (length xs)),
        equals_self (suc (length xs)),
        take-length xs,
      )
      refl

to_peer-nonempty :
    (peer : Address) (m : List ℕ) (ms : List (List ℕ))
    → to_peer peer (nonempty (m ∷ ms)) ≡ reply_to peer m (to_peer peer (nonempty ms))
to_peer-nonempty peer [] ms = refl
to_peer-nonempty peer (x ∷ xs) ms = refl

pub echo_server-arrivals :
    (peer server : Address) (ms : List (List ℕ))
    → sent_to (echo_server (arrivals peer (to_peer server ms))).events ≡ to_peer peer (nonempty ms)
unfolding echo_server
echo_server-arrivals peer server [] = refl
echo_server-arrivals peer server (m ∷ ms) =
    echo_server-arrives peer m (arrivals peer (to_peer server ms))
    ∙ ap (reply_to peer m) (echo_server-arrivals peer server ms)
    ∙ sym (to_peer-nonempty peer m ms)

-- A round of the client for an argument that is short enough.
client-answered :
    (peer server : Address) (m : List ℕ) (rs : List ArgumentRound)
    → ltb sizeof_buf (length m) ≡ false
    → let next = client server (answered server m (reply_to peer m []) ∷ rs) in
      (next.0 ≡ (client server rs).0)
      × (received_from next.1 ≡ reply_to server m (received_from (client server rs).1))
      × (sent_to next.1 ≡ (server, m) ∷ sent_to (client server rs).1)
unfolding client equals
client-answered peer server [] rs fits = (refl, refl, refl)
client-answered peer server (x ∷ xs) rs fits =
    rw
      (
        fits,
        equals-suc (length xs),
        equals_negsuc (suc (length xs)),
        equals_self (suc (length xs)),
        take-length xs,
      )
      (refl, refl, refl)

client-long :
    (server : Address) (r : ArgumentRound) (rs : List ArgumentRound)
    → ltb sizeof_buf (length r.arg) ≡ true
    → client server (r ∷ rs) ≡ ((client server rs).0, fails ∷ (client server rs).1)
unfolding client
client-long server r rs long = rw long refl

answered_arg : (server : Address) (m : List ℕ) (ds : List Datagram) → (answered server m ds).arg ≡ m
answered_arg server m [] = refl
answered_arg server m (d ∷ ds) = refl

replies_lem : (peer : Address) (m : List ℕ) → replies peer m ≡ reply_to peer m []
unfolding echo_server
replies_lem peer m = echo_server-arrives peer m []

client-exchange :
    (peer server : Address) (ms : List (List ℕ))
    → let (ret, es) = client server (exchange peer server ms) in
      (ret ≡ pos 0)
      × (sent_to es ≡ to_peer server (up_to sizeof_buf ms))
      × (received_from es ≡ to_peer server (nonempty (up_to sizeof_buf ms)))
client-exchange peer server [] = unfold client in (refl, refl, refl)
client-exchange peer server (m ∷ ms) =
    let (ret, all_sent, all_back) = client-exchange peer server ms in
    let rs = exchange peer server ms in
    elim (Bool-cases (ltb sizeof_buf (length m))) [
      | inl long ↦
          rw
            (
              client-long server (answered server m (replies peer m)) rs (
                  ap (λ a. ltb sizeof_buf (length a)) (answered_arg server m (replies peer m))
                  ∙ long),
              long,
            )
            (ret, all_sent, all_back)
      | inr fits ↦
          let (same, back, out) = client-answered peer server m rs fits in
          rw (replies_lem peer m, fits)
            (
              same ∙ ret,
              out ∙ ap (λ ds. (server, m) ∷ ds) all_sent,
              back
                  ∙ ap (reply_to server m) all_back
                  ∙ sym (to_peer-nonempty server m (up_to sizeof_buf ms)),
            )
    ]

-- Over a network that loses, reorders and delays nothing, the client of datagrams returns 0,
-- has sent its arguments of at most 1500 bytes in order, and has received each of these that
-- is not empty, in order; and the loop of the server, run over all that the client has sent,
-- sends the same back to the client.
pub exchange_lem :
    (peer server : Address) (ms : List (List ℕ))
    → let (ret, es) = client server (exchange peer server ms) in
      let served = echo_server (arrivals peer (sent_to es)) in
      (ret ≡ pos 0)
      × (sent_to es ≡ to_peer server (up_to sizeof_buf ms))
      × (received_from es ≡ to_peer server (nonempty (up_to sizeof_buf ms)))
      × (sent_to served.events ≡ to_peer peer (nonempty (up_to sizeof_buf ms)))
exchange_lem peer server ms =
    let (ret, all_sent, all_back) = client-exchange peer server ms in
    (
      ret,
      all_sent,
      all_back,
      ap (λ ds. sent_to (echo_server (arrivals peer ds)).events) all_sent
          ∙ echo_server-arrivals peer server (up_to sizeof_buf ms),
    )
