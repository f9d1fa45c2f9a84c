-- ===== src/TcpServer/Accepting.antt =====
-- The descriptors that the server opens, and the structs that it allocates for its peers.
use ohmylib.Prelude.{
  ◌+◌, ◌≡◌, refl, ap, ◌∙◌, arith, Bool, true, false, not, ◌||◌, Bool-cases, inl, inr, List, [], ◌∷◌,
  length, if◌then◌else◌,
}
use ohmylib.Prelude.Int.{ℤ, pos, negsuc, ltb_ℤ}
use ohmylib.Network.{Event, accepts, starts, equals, Attempt, socket_loop}
use ohmylib.Prelude.{count}
use ohmylib.Network.Sockets.{
  is_open, is_close, is_allocate, is_free, any_binds, last_socket, socket_loop_lem,
  socket_loop_unbound,
}
use ohmylib.TcpServer.{socket_tcp, AcceptRound, tcp_server}

-- Where getaddrinfo succeeds and no address can be bound, socket_tcp returns what the last
-- call of socket returned, although it has closed as many descriptors as it opened.
pub socket_tcp_lem :
    (gai_ret : ℤ) (attempts : List Attempt)
    → equals gai_ret (pos 0) ≡ true
    → any_binds attempts ≡ false
    → ((socket_tcp gai_ret attempts).0 ≡ last_socket attempts (negsuc 0))
      × (count is_open (socket_tcp gai_ret attempts).1
          ≡ count is_close (socket_tcp gai_ret attempts).1)
unfolding socket_tcp
socket_tcp_lem gai_ret attempts ok unbound =
    rw (ok, socket_tcp) (socket_loop_unbound attempts (negsuc 0) unbound, closed)
  where
    closed :
        count is_open (socket_loop attempts (negsuc 0)).1
        ≡ count is_close (socket_loop attempts (negsuc 0)).1
    closed = rw unbound at (socket_loop_lem attempts (negsuc 0)) ∙ omega arith

abbrev pub accepted : List Event → List ℤ
accepted [] = []
accepted (accepts d ∷ es) = d ∷ accepted es
accepted (e ∷ es) = accepted es

abbrev pub served_by_thread : List Event → List ℤ
served_by_thread [] = []
served_by_thread (starts d ∷ es) = d ∷ served_by_thread es
served_by_thread (e ∷ es) = served_by_thread es

-- A call of calloc, listen or accept fails.
abbrev pub refuses : AcceptRound → Bool
refuses r = not r.calloc_ok || ltb_ℤ r.listen_ret (pos 0) || ltb_ℤ r.accept_ret (pos 0)

abbrev pub any_refuses : List AcceptRound → Bool
any_refuses [] = false
any_refuses (r ∷ rs) = refuses r || any_refuses rs

-- The descriptors of the peers before the first such failure.
abbrev pub peers_before : List AcceptRound → List ℤ
peers_before [] = []
peers_before (r ∷ rs) = if refuses r then [] else r.accept_ret ∷ peers_before rs

-- Those of them for which a thread can be created.
abbrev pub threads_before : List AcceptRound → List ℤ
threads_before [] = []
threads_before (r ∷ rs) =
    if refuses r
    then []
    else if equals r.create_ret (pos 0)
    then r.accept_ret ∷ threads_before rs
    else threads_before rs

-- tcp_server ends exactly where a call of calloc, listen or accept fails; it has accepted the
-- descriptors before, and started a thread for each of them for which pthread_create returns
-- 0, in order; and of the structs that it allocates it frees all but one for each descriptor
-- that it has accepted, with a thread or without.
pub tcp_server_lem :
    (rs : List AcceptRound)
    → let es = (tcp_server rs).events in
      ((tcp_server rs).finished ≡ any_refuses rs)
      × (accepted es ≡ peers_before rs)
      × (served_by_thread es ≡ threads_before rs)
      × (count is_allocate es ≡ count is_free es + length (accepted es))
unfolding tcp_server
tcp_server_lem [] = (refl, refl, refl, refl)
tcp_server_lem (r ∷ rs) =
    let (ends, got, served, kept) = tcp_server_lem rs in
    elim (Bool-cases r.calloc_ok) [
      | inr e ↦ rw e (refl, refl, refl, refl)
      | inl e ↦ elim (Bool-cases (ltb_ℤ r.listen_ret (pos 0))) [
        | inl f ↦ rw (e, f) (refl, refl, refl, refl)
        | inr f ↦ elim (Bool-cases (ltb_ℤ r.accept_ret (pos 0))) [
          | inl g ↦ rw (e, f, g) (refl, refl, refl, refl)
          | inr g ↦ elim (Bool-cases (equals r.create_ret (pos 0))) [
            | inl h ↦
                rw (e, f, g, h)
                  (
                    ends,
                    ap (λ ds. r.accept_ret ∷ ds) got,
                    ap (λ ds. r.accept_ret ∷ ds) served,
                    omega (arith, kept),
                  )
            | inr h ↦
                rw (e, f, g, h)
                  (ends, ap (λ ds. r.accept_ret ∷ ds) got, served, omega (arith, kept))
          ]
        ]
      ]
    ]
