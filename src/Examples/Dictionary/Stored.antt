-- ===== src/Examples/Dictionary/Stored.antt =====
-- What the file says of the pairs that were added.
use ohmylib.Prelude.{
  ℕ, zero, suc, ◌+◌, ◌^◌, ◌≤◌, ◌<◌, ◌≡◌, refl, sym, ap, ◌∙◌, arith, true, false, Bool-cases,
  Option-cases, ◌==◌, inl, inr, Option, none, some, List, [], ◌∷◌, ◌++◌, append-nil, length,
  replicate, drop, take_all,
}
use ohmylib.Prelude.Int.{pos}
use ohmylib.Prelude.Decimal.{decimal, atoi, atoi_loop, atoi-decimal, length-digits}
use ohmylib.Dictionary.Text.{Text, text_eq, text_eq_refl, eq_of_text_eq}
use ohmylib.Dictionary.Table.{Dictionary}
use ohmylib.Dictionary.Operations.{
  Added, stored, failed, invalid, null_dereferenced, dictionary_add, Line, dictionary_dump,
}
use ohmylib.Dictionary.Laws.{find, all_succeed}
use ohmylib.Dictionary.Deleting.{dumped, dictionary_create_lem, dictionary_dump_lem}
use ohmylib.Dictionary.Refine.{
  Operation, add, Map, apply, apply_all, call, call_all, Refines, steps,
}
use ohmylib.Examples.Dictionary.{
  my_key, key_text, val_text, after, add_loop, dictionary_store, main,
}

-- The calls of the loop from `i` on.
abbrev additions : ℕ → ℕ → List Operation
additions i zero = []
additions i (suc n) = add (key_text i) (val_text i) ∷ additions (suc i) n

length-additions : (i n : ℕ) → length (additions i n) ≡ n
length-additions i zero = refl
length-additions i (suc n) = ap suc (length-additions (suc i) n)

after-call :
    (d d' : Dictionary) (i : ℕ)
    → call (add (key_text i) (val_text i)) d ≡ some d'
    → after (some d) (dictionary_add all_succeed (some d) (some (key_text i)) (some (val_text i)))
      ≡ some d'
after-call d d' i e =
    by_result (dictionary_add all_succeed (some d) (some (key_text i)) (some (val_text i))) e
  where
    by_result :
        (a : Added)
        → (elim a as (λ x. Option Dictionary) [ stored d1 ↦ some d1 | _ ↦ none ]) ≡ some d'
        → after (some d) a ≡ some d'
    by_result (stored d1) h = h
    by_result (failed d1) h = absurd (cc h)
    by_result invalid h = absurd (cc h)
    by_result null_dereferenced h = absurd (cc h)

-- The calls one after the other are the loop.
add_loop-call_all :
    (n i : ℕ) (d d' : Dictionary)
    → call_all (additions i n) d ≡ some d'
    → add_loop (replicate n all_succeed) i (some d) ≡ some d'
unfolding add_loop call_all
add_loop-call_all zero i d d' h = h
add_loop-call_all (suc n) i d d' h = elim (Option-cases (call (add (key_text i) (val_text i)) d)) [
  | inl e ↦ absurd (cc (rw (e, call_all) at h))
  | inr (d1, e) ↦
      ap (add_loop (replicate n all_succeed) (suc i)) (after-call d d1 i e)
      ∙ add_loop-call_all n (suc i) d1 d' (rw (e, call_all) at h)
]

key_text_lem : (i : ℕ) → i < 10 ^ 10 → key_text i ≡ my_key ++ decimal i
unfolding key_text
key_text_lem i h = take_all (my_key ++ decimal i) 127 (omega (arith, length-digits (suc i) i 9 h))

-- The number is read back from the key.
number_of : (i : ℕ) → i < 10 ^ 10 → atoi (drop 7 (key_text i)) ≡ pos i
unfolding atoi_loop
number_of i h =
    ap (λ k. atoi (drop 7 k)) (key_text_lem i h)
    ∙ ap atoi (sym (append-nil (decimal i)))
    ∙ atoi-decimal i []

pos_part_of : (i j : ℕ) → pos i ≡ pos j → i ≡ j
pos_part_of i j e = cc e

key_text_injective :
    (i j : ℕ) → i < 10 ^ 10 → j < 10 ^ 10 → text_eq (key_text i) (key_text j) ≡ true → i ≡ j
key_text_injective i j hi hj e = pos_part_of i j (
    sym (number_of i hi)
    ∙ ap (λ k. atoi (drop 7 k)) (eq_of_text_eq (key_text i) (key_text j) e)
    ∙ number_of j hj)

-- A key of other numbers is not touched.
apply_all_below :
    (n i j : ℕ) (m : Map)
    → j < i
    → i + n < 10 ^ 10
    → apply_all (additions i n) m (key_text j) ≡ m (key_text j)
apply_all_below zero i j m h room = refl
apply_all_below (suc n) i j m h room = elim (Bool-cases (text_eq (key_text j) (key_text i))) [
  | inl e ↦
      let same = key_text_injective j i (omega arith) (omega arith) e in
      absurd (omega (arith, same))
  | inr e ↦
      apply_all_below n (suc i) j (apply (add (key_text i) (val_text i)) m) (omega arith)
        (omega arith)
      ∙ rw e refl
]

apply_all_lem :
    (n i j : ℕ) (m : Map)
    → i ≤ j
    → j < i + n
    → i + n < 10 ^ 10
    → apply_all (additions i n) m (key_text j) ≡ some (some (val_text j))
apply_all_lem zero i j m low high room = absurd (omega arith)
apply_all_lem (suc n) i j m low high room =
    let m' = apply (add (key_text i) (val_text i)) m in
    elim (Bool-cases (i == j)) [
      | inl e ↦
          let same : i ≡ j = ground arith in
          apply_all_below n (suc i) j m' (omega arith) (omega arith)
          ∙ ap (λ k. apply (add (key_text k) (val_text k)) m (key_text j)) same
          ∙ rw (text_eq_refl (key_text j)) refl
      | inr e ↦ apply_all_lem n (suc i) j m' (ground arith) (omega arith) (omega arith)
    ]

-- A text that is not one of the keys.
abbrev pub IsOther : ℕ → Text → Type 0
IsOther n k = (i : ℕ) → i < n → text_eq k (key_text i) ≡ false

apply_all_other :
    (n i : ℕ) (k : Text) (m : Map)
    → ((j : ℕ) → j < i + n → text_eq k (key_text j) ≡ false)
    → apply_all (additions i n) m k ≡ m k
apply_all_other zero i k m h = refl
apply_all_other (suc n) i k m h =
    apply_all_other n (suc i) k (apply (add (key_text i) (val_text i)) m)
      (λ j lt. h j (omega arith))
    ∙ rw (h i (omega arith)) refl

-- For up to 4096 rounds whose allocations succeed, the dictionary example writes a file in
-- whose lines each key of a round is found with the value of that round, and no other text is
-- found as a key.
pub dictionary_main_lem :
    (n : ℕ)
    → n ≤ 4096
    → (lines : List Line) × ((main true true (replicate n all_succeed) true).0 ≡ some lines)
      × ((i : ℕ) → i < n → dumped lines (key_text i) ≡ some (some (val_text i)))
      × ((k : Text) → IsOther n k → dumped lines k ≡ none)
unfolding main dictionary_store
dictionary_main_lem n small =
    let (d, made, valid, empty, nothing, at_least, below, aligned) =
      dictionary_create_lem 0 (omega arith) in
    let begin : Refines d (find d) (length (additions 0 n)) = record {
      valid = valid;
      room_left = omega (arith, below, length-additions 0 n);
      agrees = λ j. refl;
    } in
    let (d', called, end) = steps (additions 0 n) d (find d) begin in
    let looped = add_loop-call_all n 0 d d' called in
    let (counted, dumps) = dictionary_dump_lem d' end.valid in
    (
      dictionary_dump (some d'),
      rw (made, looped) refl,
      λ i lt.
          dumps (key_text i)
          ∙ end.agrees (key_text i)
          ∙ apply_all_lem n 0 i (find d) (omega arith) (omega arith) (omega arith),
      λ k other.
          dumps k
          ∙ end.agrees k
          ∙ apply_all_other n 0 k (find d) (λ j lt. other j (omega arith))
          ∙ nothing k,
    )
