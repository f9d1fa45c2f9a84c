-- ===== src/Vector/Items.antt =====
-- The elements of an array up to its first NULL, and the functions at its end.
use ohmylib.Prelude.{
  ℕ, zero, suc, ◌+◌, ◌-◌, ◌≡◌, ◌≢◌, ◌⊎◌, inl, inr, refl, ap, arith, true, none, some, List, [], ◌∷◌,
  ◌++◌, ◌==◌, if◌then◌else◌, set, length, ==_false, ap₂, ◌∙◌,
}
use ohmylib.Vector.Cells.{push_at, Cells, count_loop, realloc, pushed, pushv}

abbrev pub items : Cells → List ℕ
items [] = []
items (c ∷ cs) = if c == 0 then [] else c ∷ items cs

-- The array ends by a NULL.
abbrev pub IsVector : Cells → Type 0
IsVector [] = ⊥
IsVector (c ∷ cs) = (c ≡ 0) ⊎ IsVector cs

pub count_loop_lem : (cs : Cells) → IsVector cs → count_loop cs ≡ some (length (items cs))
unfolding count_loop
count_loop_lem [] v = absurd v
count_loop_lem (c ∷ cs) (inl z) = ground arith
count_loop_lem (c ∷ cs) (inr v) = ground (arith, count_loop_lem cs v)

-- Where the elements of the new array stand.
abbrev extended : (ℕ → ℕ) → ℕ → ℕ → Cells → Cells
extended junk ptr n cs = set (set (realloc junk (suc (suc n)) cs) n ptr) (suc n) 0

module _ (junk : ℕ → ℕ) (ptr : ℕ) (some_ptr : ptr ≢ 0) where
  extended_lem :
      (cs : Cells) (n : ℕ)
      → count_loop cs ≡ some n
      → IsVector (extended junk ptr n cs)
        × (items (extended junk ptr n cs) ≡ items cs ++ (ptr ∷ []))
  unfolding realloc count_loop
  extended_lem [] n e = cc
  extended_lem (c ∷ []) zero e = (inr (inl refl), ground arith)
  extended_lem (c ∷ d ∷ cs) zero e = (inr (inl refl), ground arith)
  extended_lem (c ∷ cs) (suc n) e =
      let rest : count_loop cs ≡ some n = ground arith in
      (inr (extended_lem cs n rest).0, ground (arith, extended_lem cs n rest))

push_at_lem :
    (junk : ℕ → ℕ) (ptr n : ℕ) (cs : Cells)
    → push_at junk true ptr (2 + n) cs ≡ pushed (extended junk ptr n cs)
push_at_lem junk ptr n cs =
    let cells : 2 + n ≡ suc (suc n) = omega arith in
    let at : suc (suc n) - 2 ≡ n = omega arith in
    let end : suc (suc n) - 1 ≡ suc n = omega arith in
    ap (λ m. pushed (set (set (realloc junk m cs) (m - 2) ptr) (m - 1) 0)) cells
    ∙ ap₂ (λ a b. pushed (set (set (realloc junk (suc (suc n)) cs) a ptr) b 0)) at end

-- Where realloc succeeds, pushv of a pointer other than NULL onto an array that ends by a NULL
-- yields an array that ends by a NULL and whose items are the old ones and the new one behind
-- them.
pub pushv_lem :
    (junk : ℕ → ℕ) (ptr : ℕ) (cs : Cells)
    → ptr ≢ 0
    → IsVector cs
    → (cs' : Cells) × (pushv junk true ptr (some cs) ≡ pushed cs')
      × IsVector cs'
      × (items cs' ≡ items cs ++ (ptr ∷ []))
unfolding pushv
pushv_lem junk ptr cs some_ptr v =
    let n = length (items cs) in
    let counted = count_loop_lem cs v in
    let new = extended_lem junk ptr some_ptr cs n counted in
    (
      extended junk ptr n cs,
      rw (==_false ptr 0 some_ptr, counted) (push_at_lem junk ptr n cs),
      new.0,
      new.1,
    )

-- The first element of an array of two cells.
pub pushv_null :
    (junk : ℕ → ℕ) (ptr : ℕ) → ptr ≢ 0 → pushv junk true ptr none ≡ pushed (ptr ∷ 0 ∷ [])
unfolding pushv
pushv_null junk ptr some_ptr = rw (==_false ptr 0 some_ptr)
