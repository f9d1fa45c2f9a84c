-- ===== src/Network.antt =====
-- What the four network programs of posix share: the calls on sockets as events, and the search
-- for an address to bind, which each program has a copy of.
pub mod Sockets
pub mod Messages
use ohmylib.Prelude.{ℕ, Bool, not, ◌&&◌, List, [], ◌∷◌, if◌then◌else◌}
use ohmylib.Prelude.Int.{ℤ, negsuc, ltb_ℤ}

-- The bytes of a socket address.
abbrev pub Address : Type 0
Address = List ℕ

-- The calls that open and close descriptors, start threads, move data and manage memory, the
-- line `received %zd bytes`, and a message on stderr.
pub data Event : Type 0 where
  opens closes accepts starts connects : ℤ → Event
  receives sends : List ℕ → Event
  receives_from sends_to : Address → List ℕ → Event
  reports : ℤ → Event
  allocates frees fails : Event

unfoldable pub equals : ℤ → ℤ → Bool
equals a b = not (ltb_ℤ a b) && not (ltb_ℤ b a)

-- What one entry of the list of getaddrinfo leads to.
pub record Attempt : Type 0 where
  pub socket_ret : ℤ
  pub bind_ok : Bool

-- `for(rp = res; rp != NULL; rp = rp->ai_next)`, with `sd` before.
unfoldable pub socket_loop : List Attempt → ℤ → ℤ × List Event
socket_loop [] sd = (sd, [])
socket_loop (a ∷ as') sd =
    let (ret, es) = socket_loop as' a.socket_ret in
    if equals a.socket_ret (negsuc 0)
    then (ret, es)
    else if a.bind_ok
    then (a.socket_ret, opens a.socket_ret ∷ [])
    else (ret, opens a.socket_ret ∷ closes a.socket_ret ∷ es)

-- What a server has done, and whether its loop has ended.
pub record Served : Type 0 where
  pub finished : Bool
  pub events : List Event
