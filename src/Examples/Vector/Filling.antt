-- ===== src/Examples/Vector/Filling.antt =====
-- The array that the first loop leaves, and the program as a whole.
use ohmylib.Prelude.{
  ℕ, zero, suc, ◌+◌, ◌≡◌, ◌≢◌, refl, sym, ap, ap₂, ◌∙◌, true, false, ==_true, ==_false, inl, inr,
  Option, none, some, List, [], ◌∷◌, ◌++◌, append_assoc, append-nil, length,
}
use mathlib.Core.List.{map, reverse, reverse-cons, map-append}
use ohmylib.Vector.Cells.{Cells, pushed, pushv, element, array}
use ohmylib.Vector.Items.{items, IsVector, pushv_lem, pushv_null}
use ohmylib.Vector.Ends.{whole_lem, freev_lem}
use ohmylib.Examples.Vector.{Values, store, FillRound, filled, fill, returned, empty_out, main}
use ohmylib.Examples.Vector.Turns.{in_turn, drain_lem}

-- The structs that are allocated, in order.
abbrev pub pointers : List FillRound → List ℕ
pointers [] = []
pointers (r ∷ rs) = r.calloc_ret ∷ pointers rs

-- A pointer is none of the others.
abbrev pub IsFresh : ℕ → List ℕ → Type 0
IsFresh p [] = Unit
IsFresh p (q ∷ qs) = (q ≢ p) × IsFresh p qs

-- Each call succeeds, and calloc gives a new struct each time.
abbrev pub Succeeds : List FillRound → Type 0
Succeeds [] = Unit
Succeeds (r ∷ rs) =
    (r.calloc_ret ≢ 0) × (r.realloc_ok ≡ true) × IsFresh r.calloc_ret (pointers rs) × Succeeds rs

-- The numbers `i + 1`, `i + 2` and so on.
abbrev pub numbered : ℕ → ℕ → List ℕ
numbered i zero = []
numbered i (suc n) = (i + 1) ∷ numbered (suc i) n

abbrev items_of : Option Cells → List ℕ
items_of none = []
items_of (some cs) = items cs

abbrev Valid : Option Cells → Type 0
Valid none = Unit
Valid (some cs) = IsVector cs

push_lem :
    (junk : ℕ → ℕ) (p : ℕ) (v : Option Cells)
    → p ≢ 0
    → Valid v
    → (cs : Cells) × (pushv junk true p v ≡ pushed cs)
      × IsVector cs
      × (items cs ≡ items_of v ++ (p ∷ []))
push_lem junk p none ne h =
    (p ∷ 0 ∷ [], pushv_null junk p ne, inr (inl refl), rw (==_false p 0 ne) refl)
push_lem junk p (some cs) ne h = pushv_lem junk p cs ne h

pub store_self : (vals : Values) (p v : ℕ) → store p v vals p ≡ v
store_self vals p v = rw (==_true p p refl) refl

fill_lem :
    (rs : List FillRound) (i : ℕ) (v : Option Cells) (vals : Values)
    → Succeeds rs
    → Valid v
    → (cs : Option Cells) × (vals' : Values) × (fill rs i v vals ≡ filled cs vals')
      × Valid cs
      × (items_of cs ≡ items_of v ++ pointers rs)
      × (map vals' (pointers rs) ≡ numbered i (length rs))
      × ((a : ℕ) → IsFresh a (pointers rs) → vals' a ≡ vals a)
unfolding fill
fill_lem [] i v vals h valid =
    (v, vals, refl, valid, sym (append-nil (items_of v)), refl, λ a fresh. refl)
fill_lem (r ∷ rs) i v vals (ne, ok, fresh, more) valid =
    let p = r.calloc_ret in
    let (tmp, pushes, valid', behind) = push_lem r.junk p v ne valid in
    let (cs, vals', fills, valid'', all_items, values, kept) =
      fill_lem rs (suc i) (some tmp) (store p (i + 1) vals) more valid' in
    (
      cs,
      vals',
      rw (==_false p 0 ne, ok, pushes) fills,
      valid'',
      all_items
          ∙ ap (λ ps. ps ++ pointers rs) behind
          ∙ append_assoc (items_of v) (p ∷ []) (pointers rs),
      ap₂ ◌∷◌ (kept p fresh ∙ store_self vals p (i + 1)) values,
      λ a (other, others). kept a others ∙ rw (==_false a p (λ e. other (sym e))) refl,
    )

length-pointers : (rs : List FillRound) → length (pointers rs) ≡ length rs
length-pointers [] = refl
length-pointers (r ∷ rs) = ap suc (length-pointers rs)

-- What follows a loop that has left an array.
empty_out_lem :
    (cs : Cells) (vals : Values) (n : ℕ)
    → IsVector cs
    → length (items cs) ≡ n
    → empty_out (suc n) (some cs) vals
      ≡ some (
          returned n
            (map vals (in_turn n (items cs)))
            (map element (in_turn n (items cs)) ++ (array ∷ [])))
unfolding empty_out
empty_out_lem cs vals n v e =
    let (end, drained, v', empty) = drain_lem n false cs v e in
    rw ((whole_lem cs v).0, e, drained, freev_lem end v', empty) refl

map-reverse : (f : ℕ → ℕ) (xs : List ℕ) → map f (reverse xs) ≡ reverse (map f xs)
map-reverse f [] = refl
map-reverse f (x ∷ xs) =
    ap (map f) (reverse-cons x xs)
    ∙ map-append f (reverse xs) (x ∷ [])
    ∙ ap (λ ys. ys ++ (f x ∷ [])) (map-reverse f xs)
    ∙ sym (reverse-cons (f x) (map f xs))

map-in_turn : (f : ℕ → ℕ) (n : ℕ) (xs : List ℕ) → map f (in_turn n xs) ≡ in_turn n (map f xs)
map-in_turn f zero xs = refl
map-in_turn f (suc n) [] = refl
map-in_turn f (suc n) (x ∷ xs) =
    ap (λ ys. f x ∷ ys) (map-in_turn f n (reverse xs) ∙ ap (in_turn n) (map-reverse f xs))

main-fill :
    (rs : List FillRound) (fuel : ℕ) (vals vals' : Values) (v : Option Cells)
    → fill rs 0 none vals ≡ filled v vals'
    → main rs fuel vals ≡ empty_out fuel v vals'
unfolding main
main-fill rs fuel vals vals' v e = rw (e, main) refl

-- The array is there, since something has been pushed.
some_cells :
    (v : Option Cells) (p : ℕ) (ps : List ℕ)
    → items_of v ≡ p ∷ ps
    → Valid v
    → (cs : Cells) × (v ≡ some cs) × IsVector cs × (items cs ≡ p ∷ ps)
some_cells none p ps e valid = absurd (cc e)
some_cells (some cs) p ps e valid = (cs, refl, valid, e)

-- For any number of rounds that is not 0, where calloc gives a new struct each time and
-- realloc succeeds, the vector example ends within one round more of its second loop, counts
-- the rounds, prints the numbers from 1 on in the order first, last, second, last but one and
-- so on, and frees the structs in that order, each once, and then the array.
pub vector_main_lem :
    (r : FillRound) (rs : List FillRound) (vals : Values)
    → Succeeds (r ∷ rs)
    → let n = length (r ∷ rs) in
      main (r ∷ rs) (suc n) vals
      ≡ some (
          returned n
            (in_turn n (numbered 0 n))
            (map element (in_turn n (pointers (r ∷ rs))) ++ (array ∷ [])))
vector_main_lem r rs vals h =
    let n = length (r ∷ rs) in
    let ps = pointers (r ∷ rs) in
    let (v, vals', fills, valid, all_items, values, kept) = fill_lem (r ∷ rs) 0 none vals h tt in
    let (cs, there, valid', held) = some_cells v r.calloc_ret (pointers rs) all_items valid in
    main-fill (r ∷ rs) (suc n) vals vals' v fills
    ∙ ap (λ w. empty_out (suc n) w vals') there
    ∙ empty_out_lem cs vals' n valid' (ap length held ∙ length-pointers (r ∷ rs))
    ∙ ap
        (λ xs.
          some (returned n (map vals' (in_turn n xs)) (map element (in_turn n xs) ++ (array ∷ []))))
        held
    ∙ ap (λ ys. some (returned n ys (map element (in_turn n ps) ++ (array ∷ []))))
        (map-in_turn vals' n ps ∙ ap (in_turn n) values)
