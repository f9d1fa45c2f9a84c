-- ===== src/Vector/Cells.antt =====
-- countv, pushv, popv, popv_front and freev over the cells of an allocated array.
-- A result `none` is a read behind the array, whose effect C does not define.
use mathlib.Core.Option
use ohmylib.Prelude.{
  ℕ, zero, suc, ◌+◌, ◌-◌, Bool, true, false, Option, none, some, List, [], ◌∷◌, ◌==◌, if◌then◌else◌,
  get_elem?, set,
}

-- Pointers as numbers; NULL is 0.
abbrev pub Cells : Type 0
Cells = List ℕ

-- `for(p = ptrs; *p != NULL; p++) nptrs++`
unfoldable pub count_loop : Cells → Option ℕ
count_loop [] = none
count_loop (c ∷ cs) = if c == 0 then some 0 else Option.map suc (count_loop cs)

unfoldable pub countv : Cells → Option ℕ
unfolding count_loop
countv ptrs = count_loop ptrs

-- The array that realloc returns for `n` cells: the old ones, and behind them `junk`.
unfoldable pub realloc : (ℕ → ℕ) → ℕ → Cells → Cells
realloc junk zero cs = []
realloc junk (suc n) [] = junk n ∷ realloc junk n []
realloc junk (suc n) (c ∷ cs) = c ∷ realloc junk n cs

-- The new array, or NULL: for a NULL element, or where realloc fails.
pub data Pushed : Type 0 where
  pushed : Cells → Pushed
  refused no_memory out_of_range : Pushed

abbrev pub push_at : (ℕ → ℕ) → Bool → ℕ → ℕ → Cells → Pushed
push_at junk true ptr nptrs cs =
    pushed (set (set (realloc junk nptrs cs) (nptrs - 2) ptr) (nptrs - 1) 0)
push_at junk false ptr nptrs cs = no_memory

unfoldable pub pushv : (ℕ → ℕ) → Bool → ℕ → Option Cells → Pushed
unfolding count_loop realloc
pushv junk ok ptr none = if ptr == 0 then refused else push_at junk ok ptr 2 []
pushv junk ok ptr (some cs) =
    if ptr == 0
    then refused
    else elim (count_loop cs) [ none ↦ out_of_range | some n ↦ push_at junk ok ptr (2 + n) cs ]

-- The pointer that is returned, and the cells afterwards.
unfoldable pub popv : Cells → Option (ℕ × Cells)
unfolding count_loop
popv ptrs = elim (count_loop ptrs) [
  | none ↦ none
  | some nptrs ↦
      if nptrs == 0
      then some (0, ptrs)
      else Option.map (λ ptr. (ptr, set ptrs (nptrs - 1) 0)) (get_elem? ptrs (nptrs - 1))
]

-- `for(p = ptrs; *p != NULL; p++) p[0] = p[1]`
unfoldable pub shift_loop : Cells → Option Cells
shift_loop [] = none
shift_loop (c ∷ []) = if c == 0 then some (c ∷ []) else none
shift_loop (c ∷ d ∷ cs) =
    if c == 0 then some (c ∷ d ∷ cs) else Option.map (λ rest. d ∷ rest) (shift_loop (d ∷ cs))

unfoldable pub popv_front : Cells → Option (ℕ × Cells)
unfolding shift_loop
popv_front [] = none
popv_front (ptr ∷ cs) = Option.map (λ rest. (ptr, rest)) (shift_loop (ptr ∷ cs))

-- What a call of free gives back.
pub data Freed : Type 0 where
  element : ℕ → Freed
  array : Freed

unfoldable pub free_loop : Cells → Option (List Freed)
free_loop [] = none
free_loop (c ∷ cs) =
    if c == 0 then some (array ∷ []) else Option.map (λ fs. element c ∷ fs) (free_loop cs)

unfoldable pub freev : Option Cells → Option (List Freed)
unfolding free_loop
freev none = some []
freev (some ptrs) = free_loop ptrs
