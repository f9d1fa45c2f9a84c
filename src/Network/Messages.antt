-- ===== src/Network/Messages.antt =====
-- What the events of a program have sent and received, and which messages the clients can send.
use ohmylib.Prelude.{
  ℕ, ◌≡◌, refl, ap, Bool, true, false, ◌⊎◌, inl, inr, List, [], ◌∷◌, ◌++◌, length, ltb,
  if◌then◌else◌,
}
use ohmylib.Prelude.Int.{ℤ, pos, negsuc}
use ohmylib.Network.{Address, Event, receives, sends, receives_from, sends_to}

abbrev pub Datagram : Type 0
Datagram = Address × List ℕ

abbrev pub received : List Event → List (List ℕ)
received [] = []
received (receives d ∷ es) = d ∷ received es
received (e ∷ es) = received es

abbrev pub sent : List Event → List (List ℕ)
sent [] = []
sent (sends d ∷ es) = d ∷ sent es
sent (e ∷ es) = sent es

abbrev pub received_from : List Event → List Datagram
received_from [] = []
received_from (receives_from a d ∷ es) = (a, d) ∷ received_from es
received_from (e ∷ es) = received_from es

abbrev pub sent_to : List Event → List Datagram
sent_to [] = []
sent_to (sends_to a d ∷ es) = (a, d) ∷ sent_to es
sent_to (e ∷ es) = sent_to es

abbrev pub to_peer : Address → List (List ℕ) → List Datagram
to_peer peer [] = []
to_peer peer (m ∷ ms) = (peer, m) ∷ to_peer peer ms

-- The messages of at most `size` bytes.
abbrev pub up_to : ℕ → List (List ℕ) → List (List ℕ)
up_to size [] = []
up_to size (m ∷ ms) = if ltb size (length m) then up_to size ms else m ∷ up_to size ms

-- A client has sent all and returns 0, or a call has failed, it has sent a beginning of the
-- messages, and it returns -1.
abbrev pub Progress {ℓ} : {A : Type ℓ} → Bool → ℤ → List A → List A → Type ℓ
Progress {A = A} broken ret xs ys =
    ((broken ≡ false) × (ret ≡ pos 0) × (xs ≡ ys))
    ⊎ ((broken ≡ true) × (ret ≡ negsuc 0) × ((rest : List A) × (xs ++ rest ≡ ys)))

module _ {ℓ} {A : Type ℓ} (x : A) where
  pub Progress-cons :
      (broken : Bool) (ret : ℤ) (xs ys : List A)
      → Progress broken ret xs ys
      → Progress broken ret (x ∷ xs) (x ∷ ys)
  Progress-cons broken ret xs ys p = elim p [
    | inl (b, r, e) ↦ inl (b, r, ap (λ zs. x ∷ zs) e)
    | inr (b, r, begins) ↦ inr (b, r, (begins.0, ap (λ zs. x ∷ zs) begins.1))
  ]

  pub Progress-stop : (ys : List A) → Progress true (negsuc 0) (x ∷ []) (x ∷ ys)
  Progress-stop ys = inr (refl, refl, (ys, refl))
