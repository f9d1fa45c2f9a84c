-- ===== src/Examples/Multithreaded/Delivery.antt =====
-- What the program has delivered: where every element is between its send and its print.
use ohmylib.Prelude.{
  ℕ, zero, suc, ◌+◌, ◌*◌, ◌^◌, ◌≤◌, ◌<◌, ◌≡◌, refl, sym, ap, ap₂, ◌∙◌, arith, Option, none, some,
  List, [], ◌∷◌, ◌++◌, append_assoc, append-nil, ◌==◌, Memory, if◌then◌else◌, read_bytes,
  Bool-cases, inl, inr,
}
use mathlib.Core.List.{map}
use ohmylib.Prelude.Words.{bytes}
use ohmylib.Examples.Vector.{Values, store}
use ohmylib.Examples.Queue.Keeping.{Keeps}
use ohmylib.Examples.Queue.Loops.{AreSmall}
use ohmylib.Examples.Multithreaded.State.{
  Reader, first, second, is_reader, Event, pushed, failed_to_push, got, got_nothing, MainAt,
  looping, in_queue_send, at_queue_empty_wait, returned, ReaderAt, hand, Process,
}

-- What the events of a log say, one after the other.
abbrev pub collect {ℓ} : {A : Type ℓ} → (Event → List A) → List Event → List A
collect f [] = []
collect f (e ∷ es) = f e ++ collect f es

abbrev pub pushed_in : Event → List ℕ
pushed_in (pushed i) = i ∷ []
pushed_in (failed_to_push i) = []
pushed_in (got k i) = []
pushed_in (got_nothing k) = []

abbrev pub attempted_in : Event → List ℕ
attempted_in (pushed i) = i ∷ []
attempted_in (failed_to_push i) = i ∷ []
attempted_in (got k i) = []
attempted_in (got_nothing k) = []

abbrev pub got_in : Reader → Event → List ℕ
got_in j (pushed i) = []
got_in j (failed_to_push i) = []
got_in j (got k i) = if is_reader j k then i ∷ [] else []
got_in j (got_nothing k) = []

-- The numbers below a bound, from 0 on.
abbrev pub numbers : ℕ → List ℕ
numbers zero = []
numbers (suc n) = numbers n ++ (n ∷ [])

-- Of the elements taken from the queue, those that a reader took.
abbrev pub taken_by : Reader → List (Reader × ℕ) → List ℕ
taken_by j [] = []
taken_by j ((k, i) ∷ ts) = if is_reader j k then i ∷ taken_by j ts else taken_by j ts

abbrev pub indices : List (Reader × ℕ) → List ℕ
indices [] = []
indices ((k, i) ∷ ts) = i ∷ indices ts

abbrev pub to_list {ℓ} : {A : Type ℓ} → Option A → List A
to_list none = []
to_list (some a) = a ∷ []

-- The index that a reader has received and not printed.
abbrev pub in_hand : Reader → Process → List ℕ
in_hand k y = map y.values (to_list (hand (y.readers k)))

-- The pointer that main waits to send.
abbrev pub to_send : MainAt → List ℕ
to_send looping = []
to_send (in_queue_send e ts) = e ∷ []
to_send at_queue_empty_wait = []
to_send (returned v) = []

abbrev pub occurs : ℕ → List ℕ → ℕ
occurs x [] = 0
occurs x (p ∷ ps) = if p == x then suc (occurs x ps) else occurs x ps

-- How often a pointer is with a thread or in the queue.
abbrev pub held : ℕ → MainAt → (Reader → ReaderAt) → List ℕ → ℕ
held x main readers ptrs =
    occurs x (to_send main)
    + (occurs x (to_list (hand (readers first))) + occurs x (to_list (hand (readers second))))
    + occurs x ptrs

-- What holds where main stands.
abbrev pub AtMain : ℕ → MainAt → Values → Memory → ℕ → ℕ → List ℕ → Type 0
AtMain n looping vals m i p ptrs = Unit
AtMain n (in_queue_send e ts) vals m i p ptrs =
    (vals e ≡ i) × (e < 256 ^ 8) × (read_bytes m p 8 ≡ bytes 8 e)
AtMain n at_queue_empty_wait vals m i p ptrs = i ≡ 2 * n
AtMain n (returned v) vals m i p ptrs = Unit

-- The queue over the buffer at `b` holds `ptrs`, and the readers took `taken`, oldest first.
pub record Delivers (n b p_main : ℕ) (y : Process) (ptrs : List ℕ) (taken : List (Reader × ℕ))
    : Type 0 where
  pub keeps : Keeps b n y.shared ptrs
  pub order : collect pushed_in y.log ≡ indices taken ++ map y.values ptrs
  pub owned : (k : Reader) → taken_by k taken ≡ collect (got_in k) y.log ++ in_hand k y
  pub attempts : collect attempted_in y.log ≡ numbers y.i
  pub small : AreSmall ptrs
  pub apart : (x : ℕ) → held x y.main y.readers ptrs ≤ (if y.live x then 1 else 0)
  pub at_main : AtMain n y.main y.values y.shared.memory y.i p_main ptrs

pub collect-append {ℓ} :
    {A : Type ℓ} (f : Event → List A) (es fs : List Event)
    → collect f (es ++ fs) ≡ collect f es ++ collect f fs
collect-append f [] fs = refl
collect-append f (e ∷ es) fs =
    ap (λ xs. f e ++ xs) (collect-append f es fs) ∙ sym (append_assoc (f e) _ _)

-- One event more.
pub collect_one {ℓ} :
    {A : Type ℓ} (f : Event → List A) (es : List Event) (e : Event)
    → collect f (es ++ (e ∷ [])) ≡ collect f es ++ f e
collect_one f es e = collect-append f es (e ∷ []) ∙ ap (λ xs. collect f es ++ xs) (append-nil (f e))

-- One event that says nothing.
pub collect_none {ℓ} :
    {A : Type ℓ} (f : Event → List A) (es : List Event) (e : Event)
    → f e ≡ []
    → collect f (es ++ (e ∷ [])) ≡ collect f es
collect_none f es e none_said =
    collect_one f es e ∙ ap (λ xs. collect f es ++ xs) none_said ∙ append-nil (collect f es)

pub taken_by-append :
    (j : Reader) (ts us : List (Reader × ℕ))
    → taken_by j (ts ++ us) ≡ taken_by j ts ++ taken_by j us
taken_by-append j [] us = refl
taken_by-append j ((k, i) ∷ ts) us = elim (Bool-cases (is_reader j k)) [
  | inl e ↦ rw e (ap (λ xs. i ∷ xs) (taken_by-append j ts us))
  | inr e ↦ rw e (taken_by-append j ts us)
]

pub indices-append : (ts us : List (Reader × ℕ)) → indices (ts ++ us) ≡ indices ts ++ indices us
indices-append [] us = refl
indices-append ((k, i) ∷ ts) us = ap (λ xs. i ∷ xs) (indices-append ts us)

pub occurs-append : (x : ℕ) (ps qs : List ℕ) → occurs x (ps ++ qs) ≡ occurs x ps + occurs x qs
occurs-append x [] qs = omega arith
occurs-append x (p ∷ ps) qs = let rest = occurs-append x ps qs in ground arith

-- A store to a struct that is not among those of a list.
pub map-store :
    (e v : ℕ) (vals : Values) (ps : List ℕ)
    → occurs e ps ≡ 0
    → map (store e v vals) ps ≡ map vals ps
map-store e v vals [] h = refl
map-store e v vals (p ∷ ps) h = ap₂ ◌∷◌ (ground arith) (map-store e v vals ps (ground arith))

pub AreSmall-snoc : (ps : List ℕ) (v : ℕ) → AreSmall ps → v < 256 ^ 8 → AreSmall (ps ++ (v ∷ []))
AreSmall-snoc [] v h k = (k, tt)
AreSmall-snoc (p ∷ ps) v h k = (h.0, AreSmall-snoc ps v h.1 k)
