-- ===== src/TcpServer/Echo.antt =====
-- What the threads send back, and what becomes of the accepted descriptors.
use ohmylib.Prelude.{
  ℕ, suc, ◌≡◌, refl, ap, Bool, false, Bool-cases, inl, inr, not, ◌&&◌, ◌||◌, List, [], ◌∷◌, take,
}
use ohmylib.Prelude.Int.{pos, negsuc, pos_part, ltb_ℤ}
use ohmylib.Network.{Event, closes, equals}
use ohmylib.Network.Messages.{received, sent}
use ohmylib.TcpServer.{EchoRound, echo_server}

-- The number of descriptors that are closed.
abbrev pub closings : List Event → ℕ
closings [] = 0
closings (closes d ∷ es) = suc (closings es)
closings (e ∷ es) = closings es

-- A thread ends by an error of poll or of recv, and by nothing else.
abbrev pub breaks : EchoRound → Bool
breaks r =
    ltb_ℤ r.poll_ret (pos 0) || (not (equals r.poll_ret (pos 0)) && equals r.nread (negsuc 0))

abbrev pub any_breaks : List EchoRound → Bool
any_breaks [] = false
any_breaks (r ∷ rs) = breaks r || any_breaks rs

-- Whatever the calls return, echo_server hands to send the chunks that it received, in order
-- and each once; it ends exactly where a call of poll fails, or one of recv does after poll
-- has reported data; and it closes no descriptor.
pub echo_server_lem :
    (rs : List EchoRound)
    → (sent (echo_server rs).events ≡ received (echo_server rs).events)
      × ((echo_server rs).finished ≡ any_breaks rs)
      × (closings (echo_server rs).events ≡ 0)
unfolding echo_server
echo_server_lem [] = (refl, refl, refl)
echo_server_lem (r ∷ rs) =
    let (same, ends, unclosed) = echo_server_lem rs in
    elim (Bool-cases (ltb_ℤ r.poll_ret (pos 0))) [
      | inl e ↦ rw e (refl, refl, refl)
      | inr e ↦ elim (Bool-cases (equals r.poll_ret (pos 0))) [
        | inl f ↦ rw (e, f) (same, ends, unclosed)
        | inr f ↦ elim (Bool-cases (equals r.nread (negsuc 0))) [
          | inl g ↦ rw (e, f, g) (refl, refl, refl)
          | inr g ↦ elim (Bool-cases (equals r.nread (pos 0))) [
            | inl h ↦ rw (e, f, g, h) (same, ends, unclosed)
            | inr h ↦ elim (Bool-cases (equals r.send_ret r.nread)) [
              | inl k ↦
                  rw (e, f, g, h, k)
                    (ap (λ ds. take (pos_part r.nread) r.buf ∷ ds) same, ends, unclosed)
              | inr k ↦
                  rw (e, f, g, h, k)
                    (ap (λ ds. take (pos_part r.nread) r.buf ∷ ds) same, ends, unclosed)
            ]
          ]
        ]
      ]
    ]
