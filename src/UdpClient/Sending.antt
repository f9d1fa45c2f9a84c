-- ===== src/UdpClient/Sending.antt =====
-- What the client of datagrams sends, receives and returns.
use ohmylib.Prelude.{
  ℕ, ◌≤◌, refl, arith, Bool, false, Bool-cases, inl, inr, not, ◌&&◌, ◌||◌, List, [], ◌∷◌, length,
  ltb,
}
use ohmylib.Prelude.Int.{pos, negsuc, ltb_ℤ}
use ohmylib.Network.{Address, equals}
use ohmylib.Network.Messages.{
  received_from, sent_to, to_peer, up_to, Progress, Progress-cons, Progress-stop,
}
use ohmylib.UdpClient.{sizeof_buf, ArgumentRound, client}

abbrev pub args : List ArgumentRound → List (List ℕ)
args [] = []
args (r ∷ rs) = r.arg ∷ args rs

-- The argument is short enough, and one of sendto, poll and recvfrom has failed for it.
abbrev pub breaks : ArgumentRound → Bool
breaks r =
    not (ltb sizeof_buf (length r.arg))
    && (not (equals r.send_ret (pos (length r.arg)))
        || ltb_ℤ r.poll_ret (pos 0)
        || (not (equals r.poll_ret (pos 0)) && equals r.nread (negsuc 0)))

abbrev pub any_breaks : List ArgumentRound → Bool
any_breaks [] = false
any_breaks (r ∷ rs) = breaks r || any_breaks rs

-- Either none of the calls of sendto, poll and recvfrom that client makes for an argument of at most
-- 1500 bytes fails, it returns 0 and has handed just these arguments, in order, to sendto, or one
-- does, it returns -1 and has handed over a beginning of them, the last one by a call that may
-- have failed; it has received no more datagrams than it has handed over messages.
pub udp_client_lem :
    (peer : Address) (rs : List ArgumentRound)
    → let (ret, es) = client peer rs in
      Progress (any_breaks rs) ret (sent_to es) (to_peer peer (up_to sizeof_buf (args rs)))
      × (length (received_from es) ≤ length (sent_to es))
unfolding client
udp_client_lem peer [] = (inl (refl, refl, refl), ground arith)
udp_client_lem peer (r ∷ rs) =
    let (progress, fewer) = udp_client_lem peer rs in
    let next = Progress-cons (peer, r.arg) (any_breaks rs) (client peer rs).0 _ _ progress in
    let stopped = Progress-stop (peer, r.arg) (to_peer peer (up_to sizeof_buf (args rs))) in
    elim (Bool-cases (ltb sizeof_buf (length r.arg))) [
      | inl d ↦ rw d (progress, fewer)
      | inr d ↦ elim (Bool-cases (equals r.send_ret (pos (length r.arg)))) [
        | inr e ↦ rw (d, e) (stopped, ground arith)
        | inl e ↦ elim (Bool-cases (ltb_ℤ r.poll_ret (pos 0))) [
          | inl f ↦ rw (d, e, f) (stopped, ground arith)
          | inr f ↦ elim (Bool-cases (equals r.poll_ret (pos 0))) [
            | inl g ↦ rw (d, e, f, g) (next, omega (arith, fewer))
            | inr g ↦ elim (Bool-cases (equals r.nread (negsuc 0))) [
              | inl h ↦ rw (d, e, f, g, h) (stopped, ground arith)
              | inr h ↦ elim (Bool-cases (equals r.nread (pos 0))) [
                | inl k ↦ rw (d, e, f, g, h, k) (next, omega (arith, fewer))
                | inr k ↦ elim (Bool-cases (equals r.name_ret (pos 0))) [
                  | inl l ↦ rw (d, e, f, g, h, k, l) (next, omega (arith, fewer))
                  | inr l ↦ rw (d, e, f, g, h, k, l) (next, omega (arith, fewer))
                ]
              ]
            ]
          ]
        ]
      ]
    ]
