-- ===== src/Examples/Tests.antt =====
-- Runs of the programs, and the theorems at them.
use ohmylib.Prelude.{
  ℕ, ◌≡◌, refl, inl, inr, arith, ◌<◌, true, none, some, replicate, List, [], ◌∷◌, ◌++◌,
}
use ohmylib.Vector.Cells.{element, array}
use ohmylib.Dictionary.Text.{Text}
use ohmylib.Dictionary.Operations.{Line}
use ohmylib.Dictionary.Laws.{all_succeed}
use ohmylib.Dictionary.Deleting.{dumped}
use ohmylib.Examples.Vector.{FillRound, returned, main}
use ohmylib.Examples.Dictionary.{key_text, val_text}
use ohmylib.Examples.Dictionary
use ohmylib.Queue.Deadline.{at_time}
use ohmylib.Examples.Queue
use ohmylib.Examples.Queue.{SendRound, RecvRound, Event}
use ohmylib.Examples.Queue.Loops.{printed, freed, Allocates}
use ohmylib.Examples.Queue.Program.{queue_main_lem}
use ohmylib.Examples.Dictionary.Stored.{IsOther, dictionary_main_lem}
use ohmylib.Examples.Vector.Filling.{vector_main_lem}

abbrev gives : ℕ → FillRound
gives p = record { calloc_ret = p; realloc_ok = true; junk = λ n. 0 }

-- Four structs: the first, the last, the second and the third are taken.
vector_main_example :
    main (gives 10 ∷ gives 20 ∷ gives 30 ∷ gives 40 ∷ []) 5 (λ a. 0)
    ≡ some (
        returned 4
          (1 ∷ 4 ∷ 2 ∷ 3 ∷ [])
          (element 10 ∷ element 40 ∷ element 20 ∷ element 30 ∷ array ∷ []))
vector_main_example =
    vector_main_lem (gives 10) (gives 20 ∷ gives 30 ∷ gives 40 ∷ []) (λ a. 0)
      (
        omega arith,
        refl,
        ground arith,
        (
          omega arith,
          refl,
          ground arith,
          (omega arith, refl, ground arith, (omega arith, refl, tt, tt)),
        ),
      )

dictionary_main_example :
    (lines : List Line) × ((Dictionary.main true true (replicate 3 all_succeed) true).0
      ≡ some lines)
    × ((i : ℕ) → i < 3 → dumped lines (key_text i) ≡ some (some (val_text i)))
    × ((k : Text) → IsOther 3 k → dumped lines k ≡ none)
dictionary_main_example = dictionary_main_lem 3 (omega arith)

abbrev sends_struct : ℕ → SendRound
sends_struct ptr = record { calloc_ret = ptr; now = at_time 0 0; waits = 110 ∷ [] }

abbrev receives_struct : RecvRound
receives_struct = record { now = at_time 0 0; waits = 110 ∷ [] }

abbrev four_sends : List SendRound
four_sends = sends_struct 10 ∷ sends_struct 20 ∷ sends_struct 30 ∷ sends_struct 40 ∷ []

queue_main_example :
    (es : List Event) × (Queue.main 4000
        (λ n. some 100)
        (some 8)
        (four_sends ++ (sends_struct 50 ∷ []))
        (replicate 4 receives_struct ++ (receives_struct ∷ []))
        (λ a. 0)
        (λ a. 0)
      ≡ some es)
    × (printed es ≡ 1 ∷ 2 ∷ 3 ∷ 4 ∷ [])
    × (freed es ≡ 50 ∷ 10 ∷ 20 ∷ 30 ∷ 40 ∷ 100 ∷ 8 ∷ [])
queue_main_example =
    queue_main_lem 4000 8 100 (λ n. some 100) four_sends (sends_struct 50)
      (replicate 4 receives_struct) receives_struct (λ a. 0) (λ a. 0) refl (inr (omega arith)) refl
      refl five_structs (inl (omega arith)) (inl (omega arith))
  where
    five_structs : Allocates (four_sends ++ (sends_struct 50 ∷ []))
    five_structs = ground arith
