-- ===== src/Network/Sockets.antt =====
-- The descriptors that the search for a socket opens and closes.
use ohmylib.Prelude.{
  ℕ, ◌+◌, ◌≡◌, refl, arith, Bool, true, false, Bool-cases, ◌⊎◌, inl, inr, not, ◌&&◌, ◌||◌, List, [],
  ◌∷◌, ◌++◌, count, count-append, if◌then◌else◌,
}
use ohmylib.Prelude.Int.{ℤ, pos, negsuc, ltb_ℤ}
use ohmylib.Network.{Event, opens, closes, allocates, frees, fails, equals, Attempt, socket_loop}

abbrev pub is_open : Event → Bool
is_open (opens d) = true
is_open e = false

abbrev pub is_close : Event → Bool
is_close (closes d) = true
is_close e = false

abbrev pub is_allocate : Event → Bool
is_allocate allocates = true
is_allocate e = false

abbrev pub is_free : Event → Bool
is_free frees = true
is_free e = false

-- An address that the server can be bound to.
abbrev pub binds : Attempt → Bool
binds a = not (equals a.socket_ret (negsuc 0)) && a.bind_ok

abbrev pub any_binds : List Attempt → Bool
any_binds [] = false
any_binds (a ∷ as') = binds a || any_binds as'

-- All but the descriptor that is bound are closed again.
pub socket_loop_lem :
    (attempts : List Attempt) (sd : ℤ)
    → let (ret, es) = socket_loop attempts sd in
      count is_open es ≡ count is_close es + (if any_binds attempts then 1 else 0)
unfolding socket_loop
socket_loop_lem [] sd = refl
socket_loop_lem (a ∷ as') sd =
    let rest = socket_loop_lem as' a.socket_ret in
    elim (Bool-cases (equals a.socket_ret (negsuc 0))) [
      | inl e ↦ rw e rest
      | inr e ↦ elim (Bool-cases a.bind_ok) [
        | inl f ↦ rw (e, f) refl
        | inr f ↦ rw (e, f) (omega (arith, rest))
      ]
    ]

-- The last descriptor of a list, or the one before.
abbrev pub last_socket : List Attempt → ℤ → ℤ
last_socket [] sd = sd
last_socket (a ∷ as') sd = last_socket as' a.socket_ret

pub socket_loop_unbound :
    (attempts : List Attempt) (sd : ℤ)
    → any_binds attempts ≡ false
    → (socket_loop attempts sd).0 ≡ last_socket attempts sd
unfolding socket_loop
socket_loop_unbound [] sd h = refl
socket_loop_unbound (a ∷ as') sd h = elim (Bool-cases (equals a.socket_ret (negsuc 0))) [
  | inl e ↦ rw e (socket_loop_unbound as' a.socket_ret (ground arith))
  | inr e ↦ elim (Bool-cases a.bind_ok) [
    | inl f ↦ absurd (ground arith)
    | inr f ↦ rw (e, f) (socket_loop_unbound as' a.socket_ret (ground arith))
  ]
]

-- socket returns -1 or a descriptor.
abbrev pub returns_descriptors : List Attempt → Bool
returns_descriptors [] = true
returns_descriptors (a ∷ as') =
    (equals a.socket_ret (negsuc 0) || not (ltb_ℤ a.socket_ret (pos 0))) && returns_descriptors as'

pub socket_loop_bound :
    (attempts : List Attempt) (sd : ℤ)
    → any_binds attempts ≡ true
    → returns_descriptors attempts ≡ true
    → ltb_ℤ (socket_loop attempts sd).0 (pos 0) ≡ false
unfolding socket_loop
socket_loop_bound [] sd h v = absurd (ground arith)
socket_loop_bound (a ∷ as') sd h v = elim (Bool-cases (equals a.socket_ret (negsuc 0))) [
  | inl e ↦ rw e (socket_loop_bound as' a.socket_ret (ground arith) (ground arith))
  | inr e ↦ elim (Bool-cases a.bind_ok) [
    | inl f ↦ rw (e, f) (ground arith)
    | inr f ↦ rw (e, f) (socket_loop_bound as' a.socket_ret (ground arith) (ground arith))
  ]
]

-- The descriptors opened are those closed, and `n` more.
abbrev pub Leaves : List Event → ℕ → Type 0
Leaves es n = count is_open es ≡ count is_close es + n

pub Leaves-append :
    (es fs : List Event) (n : ℕ)
    → Leaves es (n + count is_close fs)
    → count is_open fs ≡ 0
    → Leaves (es ++ fs) n
Leaves-append es fs n h k =
    rw (count-append is_open es fs, count-append is_close es fs) (omega arith)

-- The search has failed and left no descriptor open, or it returns the one that it has left.
abbrev pub Searched : ℤ × List Event → Type 0
Searched found =
    ((ltb_ℤ found.0 (pos 0) ≡ true) × Leaves found.1 0)
    ⊎ ((ltb_ℤ found.0 (pos 0) ≡ false) × Leaves found.1 1)

pub socket_loop-Searched :
    (gai_ret : ℤ) (attempts : List Attempt)
    → any_binds attempts ≡ true
    → returns_descriptors attempts ≡ true
    → Searched (
        if not (equals gai_ret (pos 0))
        then (negsuc 0, fails ∷ [])
        else socket_loop attempts (negsuc 0))
socket_loop-Searched gai_ret attempts h v = elim (Bool-cases (equals gai_ret (pos 0))) [
  | inl e ↦ rw e (
      inr
        (socket_loop_bound attempts (negsuc 0) h v, rw h at (socket_loop_lem attempts (negsuc 0))))
  | inr e ↦ rw e (inl (refl, refl))
]
