-- ===== src/UdpServer/Echo.antt =====
-- What the server of datagrams sends back, and to whom.
use ohmylib.Prelude.{
  ◌≡◌, refl, ap, Bool, false, Bool-cases, inl, inr, not, ◌&&◌, ◌||◌, List, [], ◌∷◌, take,
}
use ohmylib.Prelude.Int.{pos, negsuc, pos_part, ltb_ℤ}
use ohmylib.Network.{equals}
use ohmylib.Network.Messages.{received_from, sent_to}
use ohmylib.UdpServer.{DatagramRound, echo_server}

-- An error of poll, or of recvfrom after poll has reported data.
abbrev pub breaks : DatagramRound → Bool
breaks r =
    ltb_ℤ r.poll_ret (pos 0) || (not (equals r.poll_ret (pos 0)) && equals r.nread (negsuc 0))

abbrev pub any_breaks : List DatagramRound → Bool
any_breaks [] = false
any_breaks (r ∷ rs) = breaks r || any_breaks rs

-- Whatever the calls return, echo_server of the server of datagrams hands to sendto the
-- datagrams that it received, each with the address that it came from, in order and each once;
-- and it ends exactly where a call of poll fails, or one of recvfrom does after poll has
-- reported data.
pub udp_echo_lem :
    (rs : List DatagramRound)
    → (sent_to (echo_server rs).events ≡ received_from (echo_server rs).events)
      × ((echo_server rs).finished ≡ any_breaks rs)
unfolding echo_server
udp_echo_lem [] = (refl, refl)
udp_echo_lem (r ∷ rs) =
    let (same, ends) = udp_echo_lem rs in
    let more = ap (λ ds. (r.peer_addr, take (pos_part r.nread) r.buf) ∷ ds) same in
    elim (Bool-cases (ltb_ℤ r.poll_ret (pos 0))) [
      | inl e ↦ rw e (refl, refl)
      | inr e ↦ elim (Bool-cases (equals r.poll_ret (pos 0))) [
        | inl f ↦ rw (e, f) (same, ends)
        | inr f ↦ elim (Bool-cases (equals r.nread (negsuc 0))) [
          | inl g ↦ rw (e, f, g) (refl, refl)
          | inr g ↦ elim (Bool-cases (equals r.nread (pos 0))) [
            | inl h ↦ rw (e, f, g, h) (same, ends)
            | inr h ↦ elim (Bool-cases (equals r.send_ret r.nread)) [
              | inl k ↦ elim (Bool-cases (equals r.name_ret (pos 0))) [
                | inl l ↦ rw (e, f, g, h, k, l) (more, ends)
                | inr l ↦ rw (e, f, g, h, k, l) (more, ends)
              ]
              | inr k ↦ elim (Bool-cases (equals r.name_ret (pos 0))) [
                | inl l ↦ rw (e, f, g, h, k, l) (more, ends)
                | inr l ↦ rw (e, f, g, h, k, l) (more, ends)
              ]
            ]
          ]
        ]
      ]
    ]
