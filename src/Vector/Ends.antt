-- ===== src/Vector/Ends.antt =====
-- The two ends of an array: popv and popv_front; and freev.
use ohmylib.Prelude.{
  ℕ, zero, suc, ◌-◌, ◌≡◌, ◌⊎◌, inl, inr, refl, ap, arith, true, some, List, [], ◌∷◌, ◌++◌, ◌==◌,
  get_elem?, set, length, Bool-cases, ==_false,
}
use mathlib.Core.List.{map}
use mathlib.Core.Option
use ohmylib.Vector.Cells.{
  countv, Cells, popv, shift_loop, popv_front, free_loop, freev, element, array,
}
use ohmylib.Vector.Items.{items, IsVector, count_loop_lem}

-- What popv makes of `cs`: the last element is gone, if there is one.
abbrev pub TakesLast : Cells → ℕ × Cells → Type 0
TakesLast cs (p, cs') =
    ((items cs ≡ []) × (p ≡ 0) × (cs' ≡ cs)) ⊎ (items cs ≡ items cs' ++ (p ∷ []))

abbrev pub TakesFirst : Cells → ℕ × Cells → Type 0
TakesFirst cs (p, cs') = ((items cs ≡ []) × (p ≡ 0) × (cs' ≡ cs)) ⊎ (items cs ≡ p ∷ items cs')

first : (c : ℕ) (cs : Cells) → length (items (c ∷ cs)) ≡ 1 → items (c ∷ cs) ≡ c ∷ []
first c [] h = ground arith
first c (d ∷ cs) h = ground arith

eq_nil_of_length : (xs : List ℕ) → length xs ≡ 0 → xs ≡ []
eq_nil_of_length [] h = refl
eq_nil_of_length (x ∷ xs) h = absurd (omega arith)

-- The cell before the first NULL is cleared.
last_lem :
    (cs : Cells) (n : ℕ)
    → IsVector cs
    → length (items cs) ≡ suc n
    → (p : ℕ) × (get_elem? cs n ≡ some p)
      × IsVector (set cs n 0)
      × (items cs ≡ items (set cs n 0) ++ (p ∷ []))
last_lem [] n v e = absurd v
last_lem (c ∷ cs) zero v e = (c, refl, inl refl, single)
  where
    single : items (c ∷ cs) ≡ items (0 ∷ cs) ++ (c ∷ [])
    single = first c cs e
last_lem (c ∷ cs) (suc n) (inl z) e = absurd (ground arith)
last_lem (c ∷ cs) (suc n) (inr v) e =
    let some_left : length (items cs) ≡ suc n = ground arith in
    let (p, got, v', split) = last_lem cs n v some_left in (p, got, inr v', ground arith)

popv_lem :
    (cs : Cells)
    → IsVector cs
    → (p : ℕ) × (cs' : Cells) × (popv cs ≡ some (p, cs')) × IsVector cs' × TakesLast cs (p, cs')
unfolding popv
popv_lem cs v = by_length (length (items cs)) refl
  where
    by_length :
        (n : ℕ)
        → length (items cs) ≡ n
        → (p : ℕ) × (cs' : Cells) × (popv cs ≡ some (p, cs')) × IsVector cs' × TakesLast cs (p, cs')
    by_length zero e = (
      0,
      cs,
      rw (count_loop_lem cs v, e, popv),
      v,
      inl (eq_nil_of_length (items cs) e, refl, refl),
    )
    by_length (suc n) e =
        let (p, got, v', split) = last_lem cs n v e in
        let at : suc n - 1 ≡ n = omega arith in
        (
          p,
          set cs n 0,
          rw (count_loop_lem cs v, e, popv) (rw (==_false (suc n) 0 (omega arith), at, got)),
          v',
          inr split,
        )

abbrev rest_of : List ℕ → List ℕ
rest_of [] = []
rest_of (x ∷ xs) = xs

-- The elements behind the first move up.
shift_loop_lem :
    (cs : Cells)
    → IsVector cs
    → (cs' : Cells) × (shift_loop cs ≡ some cs') × IsVector cs' × (items cs' ≡ rest_of (items cs))
unfolding shift_loop
shift_loop_lem [] v = absurd v
shift_loop_lem (c ∷ []) (inl z) = (c ∷ [], ground arith, inl z, ground arith)
shift_loop_lem (c ∷ []) (inr v) = absurd v
shift_loop_lem (c ∷ d ∷ cs) (inl z) = (c ∷ d ∷ cs, ground arith, inl z, ground arith)
shift_loop_lem (c ∷ d ∷ cs) (inr v) = elim (Bool-cases (c == 0)) [
  | inl stop ↦ (c ∷ d ∷ cs, rw stop, inr v, rw stop)
  | inr more ↦
      let (cs', e, v', moved) = shift_loop_lem (d ∷ cs) v in
      (d ∷ cs', rw (more, e), inr v', ground arith)
]

shift_loop_stops : (c : ℕ) (cs : Cells) → (c == 0) ≡ true → shift_loop (c ∷ cs) ≡ some (c ∷ cs)
unfolding shift_loop
shift_loop_stops c [] e = rw e
shift_loop_stops c (d ∷ cs) e = rw e

popv_front_lem :
    (cs : Cells)
    → IsVector cs
    → (p : ℕ) × (cs' : Cells) × (popv_front cs ≡ some (p, cs'))
      × IsVector cs'
      × TakesFirst cs (p, cs')
unfolding popv_front
popv_front_lem [] v = absurd v
popv_front_lem (c ∷ cs) v =
    let (cs', e, v', moved) = shift_loop_lem (c ∷ cs) v in (c, cs', rw e, v', takes cs' e moved)
  where
    takes :
        (cs' : Cells)
        → shift_loop (c ∷ cs) ≡ some cs'
        → items cs' ≡ rest_of (items (c ∷ cs))
        → TakesFirst (c ∷ cs) (c, cs')
    takes cs' e moved = elim (Bool-cases (c == 0)) [
      | inl stop ↦ inl (rw stop, ground arith, cc (shift_loop_stops c cs stop))
      | inr more ↦ inr (ground arith)
    ]

-- On an array that ends by a NULL, popv and popv_front each read inside the array and leave
-- one that ends by a NULL; where there is no item they return NULL and change nothing, and
-- else popv returns the last item, popv_front the first, and the others are left in order.
pub pop_lem :
    (cs : Cells)
    → IsVector cs
    → ((p : ℕ) × (cs' : Cells) × (popv cs ≡ some (p, cs')) × IsVector cs' × TakesLast cs (p, cs'))
      × ((p : ℕ) × (cs' : Cells) × (popv_front cs ≡ some (p, cs'))
          × IsVector cs'
          × TakesFirst cs (p, cs'))
pop_lem cs v = (popv_lem cs v, popv_front_lem cs v)

pub freev_lem :
    (cs : Cells) → IsVector cs → freev (some cs) ≡ some (map element (items cs) ++ (array ∷ []))
unfolding freev free_loop
freev_lem [] v = absurd v
freev_lem (c ∷ cs) (inl z) = ground arith
freev_lem (c ∷ cs) (inr v) = elim (Bool-cases (c == 0)) [
  | inl stop ↦ rw stop
  | inr more ↦ rw more (ap (Option.map (λ fs. element c ∷ fs)) (freev_lem cs v))
]

-- On an array that ends by a NULL, countv and freev read inside the array; countv returns the
-- number of items before the first NULL, and freev frees each of these once, in order, and
-- then the array.
pub whole_lem :
    (cs : Cells)
    → IsVector cs
    → (countv cs ≡ some (length (items cs)))
      × (freev (some cs) ≡ some (map element (items cs) ++ (array ∷ [])))
unfolding countv
whole_lem cs v = (count_loop_lem cs v, freev_lem cs v)
