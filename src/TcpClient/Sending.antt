-- ===== src/TcpClient/Sending.antt =====
-- What the connected client sends, receives and returns.
use ohmylib.Prelude.{
  ℕ, ◌≤◌, refl, arith, Bool, false, Bool-cases, inl, inr, not, ◌&&◌, ◌||◌, List, [], ◌∷◌, length,
  ltb,
}
use ohmylib.Prelude.Int.{pos, negsuc, ltb_ℤ}
use ohmylib.Network.{equals}
use ohmylib.Network.Messages.{received, sent, up_to, Progress, Progress-cons, Progress-stop}
use ohmylib.TcpClient.{sizeof_buf, StreamRound, client}

abbrev pub args : List StreamRound → List (List ℕ)
args [] = []
args (r ∷ rs) = r.arg ∷ args rs

-- The argument is short enough, and one of send, poll and recv has failed for it.
abbrev pub breaks : StreamRound → Bool
breaks r =
    not (ltb sizeof_buf (length r.arg))
    && (not (equals r.send_ret (pos (length r.arg)))
        || ltb_ℤ r.poll_ret (pos 0)
        || (not (equals r.poll_ret (pos 0)) && equals r.nread (negsuc 0)))

abbrev pub any_breaks : List StreamRound → Bool
any_breaks [] = false
any_breaks (r ∷ rs) = breaks r || any_breaks rs

-- Either none of the calls of send, poll and recv that client makes for an argument of at most
-- 1500 bytes fails, it returns 0 and has handed just these arguments, in order, to send, or one
-- does, it returns -1 and has handed over a beginning of them, the last one by a call that may
-- have failed; it has received no more chunks than it has handed over messages.
pub tcp_client_lem :
    (rs : List StreamRound)
    → let (ret, es) = client rs in
      Progress (any_breaks rs) ret (sent es) (up_to sizeof_buf (args rs))
      × (length (received es) ≤ length (sent es))
unfolding client
tcp_client_lem [] = (inl (refl, refl, refl), ground arith)
tcp_client_lem (r ∷ rs) =
    let (progress, fewer) = tcp_client_lem rs in
    let next = Progress-cons r.arg (any_breaks rs) (client rs).0 _ _ progress in
    let stopped = Progress-stop r.arg (up_to sizeof_buf (args rs)) in
    elim (Bool-cases (ltb sizeof_buf (length r.arg))) [
      | inl d ↦ rw d (progress, fewer)
      | inr d ↦ elim (Bool-cases (equals r.send_ret (pos (length r.arg)))) [
        | inr e ↦ rw (d, e) (stopped, ground arith)
        | inl e ↦ elim (Bool-cases (ltb_ℤ r.poll_ret (pos 0))) [
          | inl f ↦ rw (d, e, f) (stopped, ground arith)
          | inr f ↦ elim (Bool-cases (equals r.poll_ret (pos 0))) [
            | inl g ↦ rw (d, e, f, g) (next, omega (arith, fewer))
            | inr g ↦ elim (Bool-cases (equals r.nread (negsuc 0))) [
              | inl h ↦ rw (d, e, f, g, h) (stopped, ground arith)
              | inr h ↦ elim (Bool-cases (equals r.nread (pos 0))) [
                | inl k ↦ rw (d, e, f, g, h, k) (next, omega (arith, fewer))
                | inr k ↦ rw (d, e, f, g, h, k) (next, omega (arith, fewer))
              ]
            ]
          ]
        ]
      ]
    ]
