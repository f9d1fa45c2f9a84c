-- ===== src/Dictionary/Table.antt =====
-- struct dictionary_entry_s and struct dictionary_s, and the two searches through the entries.
use ohmylib.Prelude.{ℕ, suc, Bool, false, ◌&&◌, Option, none, some}
use ohmylib.Prelude.{List, [], ◌∷◌, ◌==◌, if◌then◌else◌, get_elem?}
use ohmylib.Dictionary.Text.{Text, text_eq}
use mathlib.Core.Option

pub record Entry : Type 0 where
  pub hash : ℕ
  pub key : Option Text
  pub val : Option Text

-- The array of entries has `size` cells.
pub record Dictionary : Type 0 where
  pub count : ℕ
  pub size : ℕ
  pub entries : List Entry

-- What calloc makes of a cell.
abbrev pub empty_entry : Entry
empty_entry = record { hash = 0; key = none; val = none }

abbrev pub entry_matches : Text → ℕ → Entry → Bool
entry_matches key hash e = elim e.key [ none ↦ false | some k ↦ (hash == e.hash) && text_eq key k ]

-- The index of the first entry that fits; `none` for ENOENT.
unfoldable pub dictionary_find_idx_by_key : List Entry → Text → ℕ → Option ℕ
dictionary_find_idx_by_key [] key hash = none
dictionary_find_idx_by_key (e ∷ es) key hash =
    if entry_matches key hash e
    then some 0
    else Option.map suc (dictionary_find_idx_by_key es key hash)

unfoldable pub dictionary_find_idx_by_empty : List Entry → Option ℕ
dictionary_find_idx_by_empty [] = none
dictionary_find_idx_by_empty (e ∷ es) = elim e.key [
  | none ↦ some 0
  | some k ↦ Option.map suc (dictionary_find_idx_by_empty es)
]

-- `d->entries[idx].val`
abbrev pub value_at : List Entry → ℕ → Option Text
value_at es i = elim (get_elem? es i) [ none ↦ none | some e ↦ e.val ]
