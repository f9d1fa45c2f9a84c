-- ===== src/Dictionary/Tests.antt =====
-- Runs of the dictionary at concrete inputs, and the theorems at inputs that meet their hypotheses.
use ohmylib.Prelude.{
  ◌+◌, ◌≡◌, refl, ap, arith, inr, false, Option, none, some, [], ◌∷◌, length, if◌then◌else◌,
}
use ohmylib.Dictionary.Text.{Text, text_eq}
use ohmylib.Dictionary.Hash.{dictionary_hash}
use ohmylib.Dictionary.Table.{Dictionary, empty_entry}
use ohmylib.Dictionary.Operations.{
  stored, dictionary_add, dictionary_get, dictionary_del, dictionary_destroy, entries_block,
}
use ohmylib.Dictionary.Lookup.{occupied}
use ohmylib.Dictionary.Updates.{entry_of}
use ohmylib.Dictionary.Laws.{IsValid, find, all_succeed, Holds, dictionary_get_lem}
use ohmylib.Dictionary.Adding.{dictionary_add-Holds, dictionary_add_key_lost}
use ohmylib.Dictionary.Deleting.{dictionary_del_lem, dictionary_destroy_leaks, texts, IsKept}
use ohmylib.Dictionary.Refine.{add, del, apply_all, call_all, call_all_refines}

abbrev ab : Text
ab = 97 ∷ 98 ∷ []

abbrev one : Text
one = 49 ∷ []

abbrev small : Dictionary
small = record { count = 1; size = 2; entries = entry_of ab (some one) ∷ empty_entry ∷ [] }

hash_of_ab : dictionary_hash (some ab) ≡ 0x45e61e58
unfolding dictionary_hash
hash_of_ab = refl

small-IsValid : IsValid small
small-IsValid = record {
  table = record {
    hashed = (λ k e. ap (λ o. dictionary_hash o) e, (λ k e. cc, tt));
    unique = (λ k e. refl, (λ k e. cc, tt));
  };
  sized = refl;
  counted = refl;
  small = omega arith;
}

abbrev cd : Text
cd = 99 ∷ 100 ∷ []

cd_absent : find small cd ≡ none
unfolding text_eq
cd_absent = refl

dictionary_get_example :
    dictionary_get (some small) (some cd) (some one)
    ≡ elim (find small cd) [ none ↦ some one | some v ↦ v ]
dictionary_get_example = dictionary_get_lem small cd (some one) small-IsValid

dictionary_add-Holds_example :
    Holds small cd (some one) (dictionary_add all_succeed (some small) (some cd) (some one))
dictionary_add-Holds_example =
    dictionary_add-Holds small cd (some one) small-IsValid (omega arith) (inr (cc))

dictionary_add_key_lost_example :
    (d' : Dictionary) × (dictionary_add
        (record all_succeed { key_ok = false })
        (some small)
        (some cd)
        (some one)
      ≡ stored d')
    × (find d' cd ≡ none)
    × (d'.count ≡ occupied d'.entries + 1)
dictionary_add_key_lost_example =
    dictionary_add_key_lost small cd (some one) small-IsValid (omega arith) cd_absent

dictionary_del_example :
    (d' : Dictionary) × (dictionary_del (some small) (some ab) ≡ some d')
    × IsValid d'
    × (d'.size ≡ small.size)
    × ((j : Text) → find d' j ≡ (if text_eq j ab then none else find small j))
dictionary_del_example = dictionary_del_lem small ab small-IsValid

dictionary_destroy_example :
    (length (dictionary_destroy (some small)) ≡ texts small.entries + 1)
    × IsKept entries_block (dictionary_destroy (some small))
dictionary_destroy_example = dictionary_destroy_leaks small

call_all_example :
    (d' : Dictionary) × (call_all (add cd one ∷ del ab ∷ []) small ≡ some d')
    × IsValid d'
    × ((k : Text) (def : Option Text)
        → dictionary_get (some d') (some k) def
          ≡ elim (apply_all (add cd one ∷ del ab ∷ []) (find small) k) [ none ↦ def | some v ↦ v ])
call_all_example = call_all_refines (add cd one ∷ del ab ∷ []) small small-IsValid (omega arith)
