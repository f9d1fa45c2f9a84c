-- ===== src/Examples/Dictionary.antt =====
-- examples/dictionary/dict.c: it adds numbered pairs to a dictionary and dumps it to a file. The
-- outcomes of the allocations and of fopen are arguments.
pub mod Stored
use ohmylib.Prelude.{
  ℕ, suc, ◌+◌, ◌-◌, ◌*◌, Bool, Option, none, some, List, [], ◌∷◌, ◌++◌, take, if◌then◌else◌,
}
use ohmylib.Prelude.Decimal.{decimal}
use ohmylib.Dictionary.Text.{Text}
use ohmylib.Dictionary.Table.{Dictionary}
use ohmylib.Dictionary.Operations.{
  Allocations, Added, stored, failed, invalid, null_dereferenced, dictionary_create, dictionary_add,
  Line, dictionary_dump, Block, dictionary_destroy,
}

-- `my_key;` and `my_val`
abbrev pub my_key : Text
my_key = 109 ∷ 121 ∷ 95 ∷ 107 ∷ 101 ∷ 121 ∷ 59 ∷ []

abbrev my_val : Text
my_val = 109 ∷ 121 ∷ 95 ∷ 118 ∷ 97 ∷ 108 ∷ []

-- What snprintf leaves in `key` and in `val`. The products stay below the limit of `int`.
unfoldable pub key_text : ℕ → Text
key_text i = take (128 - 1) (my_key ++ decimal i)

unfoldable pub val_text : ℕ → Text
val_text i = take (1024 - 1) (my_val ++ (decimal i ++ (32 ∷ 34 ∷ decimal (i * i) ++ (34 ∷ []))))

-- The dictionary after a call whose result is not tested. The value is never NULL.
abbrev pub after : Option Dictionary → Added → Option Dictionary
after dict (stored d) = some d
after dict (failed d) = some d
after dict invalid = dict
after dict null_dereferenced = dict

-- `for(int i = 0; i < 4096; i++)`, with the outcomes of the allocations for each `i`.
unfoldable pub add_loop : List Allocations → ℕ → Option Dictionary → Option Dictionary
add_loop [] i dict = dict
add_loop (al ∷ als) i dict =
    add_loop als (suc i)
      (after dict (dictionary_add al dict (some (key_text i)) (some (val_text i))))

-- The lines that are written, if the file can be opened.
unfoldable pub dictionary_store : Bool → Option Dictionary → Option (List Line)
dictionary_store fopen_ok d = if fopen_ok then some (dictionary_dump d) else none

-- The lines of the file and the blocks that are freed.
unfoldable pub main : Bool → Bool → List Allocations → Bool → Option (List Line) × List Block
unfolding add_loop dictionary_store
main struct_ok entries_ok als fopen_ok =
    let dict = add_loop als 0 (dictionary_create struct_ok entries_ok 0) in
    (dictionary_store fopen_ok dict, dictionary_destroy dict)
