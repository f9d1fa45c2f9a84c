-- ===== src/Dictionary/Operations.antt =====
-- dictionary_create, _resize, _get, _add, _del, _dump and _destroy.
use ohmylib.Prelude.{ℕ, ◌+◌, ◌-◌, ◌%◌, ◌^◌, bit_and, Bool, ◌&&◌, Option, none, some}
use ohmylib.Prelude.{List, [], ◌∷◌, ◌++◌, ltb, ◌==◌, if◌then◌else◌, get_elem?, set, replicate}
use ohmylib.Dictionary.Text.{Text}
use ohmylib.Dictionary.Hash.{dictionary_hash}
use ohmylib.Dictionary.Table.{
  Entry, Dictionary, empty_entry, value_at, dictionary_find_idx_by_key,
  dictionary_find_idx_by_empty,
}

abbrev pub dictionary_min_size : ℕ
dictionary_min_size = 128

-- `ALIGN(size, 0x7fu)`: the mask `~0x7fu` has 32 bits, also where `size` has 64.
abbrev pub align : ℕ → ℕ
align size = bit_and ((size + 0x7f) % 2 ^ 64) (2 ^ 32 - 1 - 0x7f)

-- The outcomes of the two allocations are arguments.
unfoldable pub dictionary_create : Bool → Bool → ℕ → Option Dictionary
dictionary_create struct_ok entries_ok requested =
    let size =
      align (if ltb requested dictionary_min_size then dictionary_min_size else requested) in
    if struct_ok && entries_ok
    then some (record { count = 0; size = size; entries = replicate size empty_entry })
    else none

-- The outcomes of the allocations that a call of dictionary_add may make.
pub record Allocations : Type 0 where
  pub entries_ok : Bool
  pub key_ok : Bool
  pub val_ok : Bool

-- How dictionary_add ends: by 0, by -1 with what it leaves, for EINVAL, or in strdup(NULL).
pub data Added : Type 0 where
  stored : Dictionary → Added
  failed : Dictionary → Added
  invalid : Added
  null_dereferenced : Added

unfoldable pub dictionary_resize : Bool → Dictionary → Option Dictionary
dictionary_resize entries_ok d =
    if ltb d.count d.size
    then some d
    else if entries_ok
    then some (record d {
      size = (d.size + dictionary_min_size) % 2 ^ 64;
      entries = d.entries ++ replicate dictionary_min_size empty_entry;
    })
    else none

-- `strdup(s)`
abbrev pub strdup : Bool → Text → Option Text
strdup ok s = if ok then some s else none

abbrev pub set_val : List Entry → ℕ → Option Text → List Entry
set_val es i v = elim (get_elem? es i) [ none ↦ es | some e ↦ set es i (record e { val = v }) ]

-- A new value for an existing key. The value is not tested for NULL here.
unfoldable pub refresh : Bool → Dictionary → ℕ → Option Text → Added
refresh val_ok d idx none = null_dereferenced
refresh val_ok d idx (some v) =
    if val_ok
    then stored (record d { entries = set_val d.entries idx (some v) })
    else failed (record d { entries = set_val d.entries idx none })

unfoldable pub insert : Allocations → Dictionary → Text → ℕ → Option Text → Added
insert al d key hash val = elim (dictionary_find_idx_by_empty d.entries) [
  | none ↦ failed d
  | some idx ↦ stored (record d {
    count = (d.count + 1) % 2 ^ 64;
    entries = set d.entries idx (record {
      hash = hash;
      key = strdup al.key_ok key;
      val = elim val [ none ↦ none | some v ↦ strdup al.val_ok v ];
    });
  })
]

unfoldable pub dictionary_add : Allocations → Option Dictionary → Option Text → Option Text → Added
dictionary_add al none key val = invalid
dictionary_add al (some d) none val = invalid
dictionary_add al (some d) (some key) val =
    let hash = dictionary_hash (some key) in
    elim (dictionary_find_idx_by_key d.entries key hash) [
      | some idx ↦ refresh al.val_ok d idx val
      | none ↦ elim (dictionary_resize al.entries_ok d) [
        | none ↦ failed d
        | some d' ↦ insert al d' key hash val
      ]
    ]

unfoldable pub dictionary_get : Option Dictionary → Option Text → Option Text → Option Text
dictionary_get none key def = def
dictionary_get (some d) none def = def
dictionary_get (some d) (some key) def =
    elim (dictionary_find_idx_by_key d.entries key (dictionary_hash (some key))) [
      | none ↦ def
      | some idx ↦ value_at d.entries idx
    ]

unfoldable pub dictionary_del : Option Dictionary → Option Text → Option Dictionary
dictionary_del none key = none
dictionary_del (some d) none = some d
dictionary_del (some d) (some key) =
    elim (dictionary_find_idx_by_key d.entries key (dictionary_hash (some key))) [
      | none ↦ some d
      | some idx ↦ some (record d {
        count = (d.count + 2 ^ 64 - 1) % 2 ^ 64;
        entries = set d.entries idx empty_entry;
      })
    ]

-- A line of the dump, `%08X;"%s";"%s"`, by what its three fields print.
pub record Line : Type 0 where
  pub hash : ℕ
  pub key : Text
  pub val : Option Text

unfoldable pub dump_loop : List Entry → List Line
dump_loop [] = []
dump_loop (e ∷ es) = elim e.key [
  | none ↦ dump_loop es
  | some k ↦ record { hash = e.hash; key = k; val = e.val } ∷ dump_loop es
]

-- The value of a line is `none` where "undefined" is printed.
unfoldable pub dictionary_dump : Option Dictionary → List Line
unfolding dump_loop
dictionary_dump none = []
dictionary_dump (some d) = if d.count == 0 then [] else dump_loop d.entries

-- The blocks that a dictionary is made of, each from one call of calloc or strdup.
pub data Block : Type 0 where
  text_block : Text → Block
  entries_block struct_block : Block

abbrev pub text_blocks : Option Text → List Block
text_blocks none = []
text_blocks (some t) = text_block t ∷ []

unfoldable pub destroy_loop : List Entry → List Block
destroy_loop [] = []
destroy_loop (e ∷ es) = text_blocks e.key ++ (text_blocks e.val ++ destroy_loop es)

-- The blocks that are freed, in order.
unfoldable pub dictionary_destroy : Option Dictionary → List Block
unfolding destroy_loop
dictionary_destroy none = []
dictionary_destroy (some d) = destroy_loop d.entries ++ (struct_block ∷ [])
