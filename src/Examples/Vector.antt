-- ===== src/Examples/Vector.antt =====
-- examples/vector/vector.c: it fills an array with pointers to numbered structs, and takes them
-- off the two ends in turn. The calls of calloc and of realloc are given by what they return.
pub mod Turns
pub mod Filling
use ohmylib.Prelude.{
  ℕ, zero, suc, ◌+◌, Bool, true, false, not, Option, none, some, List, [], ◌∷◌, ◌++◌, ◌==◌, ◌>>=◌,
  if◌then◌else◌,
}
use mathlib.Core.Option
use mathlib.Core.List.{map}
use ohmylib.Vector.Cells.{
  Cells, countv, Pushed, pushed, refused, no_memory, out_of_range, pushv, popv, popv_front, Freed,
  element, freev,
}

-- The field `val` of the struct at each address.
abbrev pub Values : Type 0
Values = ℕ → ℕ

abbrev pub store : ℕ → ℕ → Values → Values
store p v vals a = if a == p then v else vals a

-- One round of the loop that fills the array.
pub record FillRound : Type 0 where
  pub calloc_ret : ℕ
  pub realloc_ok : Bool
  pub junk : ℕ → ℕ

-- How it ends: with the array, or by `exit` after the calls of free. `undefined` is a read
-- behind the array.
pub data Filled : Type 0 where
  filled : Option Cells → Values → Filled
  exits : List Freed → Filled
  undefined : Filled

abbrev exit_after : List Freed → Option (List Freed) → Filled
exit_after fs none = undefined
exit_after fs (some gs) = exits (fs ++ gs)

-- `for(int i = 0; i < 0x100; i++)`, with a round for each `i`.
unfoldable pub fill : List FillRound → ℕ → Option Cells → Values → Filled
fill [] i v vals = filled v vals
fill (r ∷ rs) i v vals =
    if r.calloc_ret == 0
    then exit_after [] (freev v)
    else elim (pushv r.junk r.realloc_ok r.calloc_ret v) [
      | pushed tmp ↦ fill rs (suc i) (some tmp) (store r.calloc_ret (i + 1) vals)
      | refused ↦ exit_after (element r.calloc_ret ∷ []) (freev v)
      | no_memory ↦ exit_after (element r.calloc_ret ∷ []) (freev v)
      | out_of_range ↦ undefined
    ]

-- The pointers that are taken, in order, each printed by its value and freed, and the array.
abbrev pub Drained : Type 0
Drained = List ℕ × Cells

-- `do ... while(s != NULL)`; without enough rounds it is `none`.
unfoldable pub drain : ℕ → Bool → Cells → Option Drained
drain zero flipflop v = none
drain (suc k) flipflop v = elim (if flipflop then popv v else popv_front v) [
  | none ↦ none
  | some (s, v') ↦
      let rest = drain k (not flipflop) v' in
      if s == 0 then some ([], v') else Option.map (λ d. (s ∷ d.0, d.1)) rest
]

pub data Ending : Type 0 where
  -- The number that countv gives, the values printed, and the calls of free.
  returned : ℕ → List ℕ → List Freed → Ending
  exited : List Freed → Ending

-- What follows the loop that fills the array. The pointer is never NULL, since there are rounds.
unfoldable pub empty_out : ℕ → Option Cells → Values → Option Ending
unfolding drain
empty_out fuel none vals = none
empty_out fuel (some v) vals = do
  n ← countv v
  (ptrs, v') ← drain fuel false v
  fs ← freev (some v')
  some (returned n (map vals ptrs) (map element ptrs ++ fs))

unfoldable pub main : List FillRound → ℕ → Values → Option Ending
unfolding fill empty_out
main rounds fuel vals = elim (fill rounds 0 none vals) [
  | filled v vals' ↦ empty_out fuel v vals'
  | exits fs ↦ some (exited fs)
  | undefined ↦ none
]
