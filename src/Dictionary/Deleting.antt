-- ===== src/Dictionary/Deleting.antt =====
-- dictionary_del, dictionary_create, dictionary_dump and dictionary_destroy.
use ohmylib.Prelude.{
  ℕ, ◌+◌, ◌-◌, ◌*◌, ◌/◌, ◌%◌, ◌^◌, ◌≤◌, ◌<◌, ◌≡◌, ◌≢◌, refl, ap, arith, inl, inr, true, Option,
  none, some, ◌∙◌,
}
use ohmylib.Prelude.{
  List, [], ◌∷◌, ◌++◌, ltb, if◌then◌else◌, set, length, length-set, replicate, length-replicate,
}
use ohmylib.Prelude.{append_assoc, bit_and, bit_and_ones, bit_and_shift_by}
use ohmylib.Dictionary.Text.{Text, text_eq, text_eq_iff}
use ohmylib.Dictionary.Hash.{dictionary_hash}
use ohmylib.Dictionary.Table.{Entry, Dictionary, empty_entry}
use ohmylib.Dictionary.Operations.{
  dictionary_del, dictionary_create, dictionary_min_size, dictionary_dump, dump_loop, Line, align,
  dictionary_destroy, destroy_loop, Block, entries_block, struct_block, text_blocks,
}
use ohmylib.Dictionary.Lookup.{lookup, occupied}
use ohmylib.Dictionary.Updates.{lookup-delete}
use ohmylib.Dictionary.Invariant.{lookup-new, delete-IsTable, occupied-delete, created-IsTable}
use ohmylib.Dictionary.Laws.{IsValid, find, index-cases, occupied-le}

-- dictionary_del of a key leaves a valid dictionary valid and of the same size; afterwards the
-- key is not there, and every other key has what it had.
pub dictionary_del_lem :
    (d : Dictionary) (k : Text)
    → IsValid d
    → (d' : Dictionary) × (dictionary_del (some d) (some k) ≡ some d')
      × IsValid d'
      × (d'.size ≡ d.size)
      × ((j : Text) → find d' j ≡ (if text_eq j k then none else find d j))
unfolding dictionary_del
dictionary_del_lem d k v = elim (index-cases d k v) [
  | inl (e, absent) ↦ (d, rw (e, dictionary_del), v, refl, λ j. ground (arith, text_eq_iff j k))
  | inr (i, e, there) ↦ (
    record d { count = (d.count + 2 ^ 64 - 1) % 2 ^ 64; entries = set d.entries i empty_entry },
    rw (e, dictionary_del),
    record {
      table = delete-IsTable d.entries i v.table;
      sized = length-set d.entries i _ ∙ v.sized;
      counted = omega (
        arith,
        occupied-delete k (dictionary_hash (some k)) d.entries i e,
        occupied-le d.entries,
      );
      small = v.small;
    },
    refl,
    λ j. lookup-delete k none j d.entries i v.table.hashed v.table.unique e,
  )
]

-- The size of a new table is the least multiple of 128 that is not below the request.
module _ (n : ℕ) (h : n + 127 < 2 ^ 32) where
  align_mask : bit_and (n + 127) (33554431 * 128) ≡ (n + 127) / 128 * 128
  align_mask =
      bit_and_shift_by 7 (n + 127) 33554431
      ∙ ap (λ t. t * 128) (bit_and_ones 25 ((n + 127) / 128) (omega arith))

  pub align_lem : align n ≡ (n + 127) / 128 * 128
  align_lem = ap (λ t. bit_and t (2 ^ 32 - 1 - 0x7f)) {y = n + 127} (omega arith) ∙ align_mask

module _ (n : ℕ) where
  abbrev new : Dictionary
  new = record { count = 0; size = n; entries = replicate n empty_entry }

  new-IsValid : n + 128 < 2 ^ 64 → IsValid new
  new-IsValid h = record {
    table = (created-IsTable n).0;
    sized = length-replicate n empty_entry;
    counted = (created-IsTable n).1;
    small = h;
  }

-- For a requested size that is below 2 ^ 32 with 127 added, and allocations that succeed,
-- dictionary_create yields a valid dictionary without keys, whose size is a multiple of 128,
-- at least the requested one, and less than it plus 256.
pub dictionary_create_lem :
    (requested : ℕ)
    → requested + 127 < 2 ^ 32
    → (d : Dictionary) × (dictionary_create true true requested ≡ some d)
      × IsValid d
      × (d.count ≡ 0)
      × ((k : Text) → find d k ≡ none)
      × (requested ≤ d.size)
      × (d.size < requested + 256)
      × (d.size % 128 ≡ 0)
unfolding dictionary_create
dictionary_create_lem requested h = (
  new size,
  refl,
  new-IsValid size (omega (arith, sized, bounds)),
  refl,
  λ k. lookup-new size k,
  omega (arith, sized, bounds),
  omega (arith, sized, bounds),
  omega (arith, sized),
)
  where
    at_least : ℕ
    at_least = if ltb requested dictionary_min_size then dictionary_min_size else requested

    size : ℕ
    size = align at_least

    bounds : (requested ≤ at_least) × (at_least < requested + 129) × (at_least + 127 < 2 ^ 32)
    bounds = (ground arith, ground arith, ground arith)

    sized : size ≡ (at_least + 127) / 128 * 128
    sized = align_lem at_least bounds.2

-- The value that a dump prints behind a key.
abbrev pub dumped : List Line → Text → Option (Option Text)
dumped [] k = none
dumped (l ∷ ls) k = if text_eq k l.key then some l.val else dumped ls k

dumped-dump_loop : (es : List Entry) (k : Text) → dumped (dump_loop es) k ≡ lookup es k
unfolding dump_loop
dumped-dump_loop [] k = refl
dumped-dump_loop (x ∷ es) k = ground (arith, dumped-dump_loop es k)

length-dump_loop : (es : List Entry) → length (dump_loop es) ≡ occupied es
unfolding dump_loop
length-dump_loop [] = refl
length-dump_loop (x ∷ es) = ground (arith, length-dump_loop es)

eq_nil_of_length : (ls : List Line) → length ls ≡ 0 → ls ≡ []
eq_nil_of_length [] h = refl
eq_nil_of_length (l ∷ ls) h = absurd (omega arith)

dictionary_dump_loop : (d : Dictionary) → IsValid d → dictionary_dump (some d) ≡ dump_loop d.entries
unfolding dictionary_dump
dictionary_dump_loop d v =
    ground (arith, length-dump_loop d.entries, eq_nil_of_length (dump_loop d.entries))

-- The dump of a valid dictionary has as many lines as there are entries counted, and looking a
-- key up in its lines finds what the dictionary holds under the key.
pub dictionary_dump_lem :
    (d : Dictionary)
    → IsValid d
    → (length (dictionary_dump (some d)) ≡ d.count)
      × ((k : Text) → dumped (dictionary_dump (some d)) k ≡ find d k)
dictionary_dump_lem d v = (
  ap length (dictionary_dump_loop d v) ∙ length-dump_loop d.entries ∙ v.counted,
  λ k. ap (λ ls. dumped ls k) (dictionary_dump_loop d v) ∙ dumped-dump_loop d.entries k,
)

-- The texts that the entries own.
abbrev pub texts : List Entry → ℕ
texts [] = 0
texts (e ∷ es) = length (text_blocks e.key) + length (text_blocks e.val) + texts es

abbrev pub IsKept : Block → List Block → Type 0
IsKept b [] = Unit
IsKept b (c ∷ cs) = (c ≢ b) × IsKept b cs

length-destroy_loop :
    (es : List Entry) → length (destroy_loop es ++ (struct_block ∷ [])) ≡ texts es + 1
unfolding destroy_loop
length-destroy_loop [] = refl
length-destroy_loop (x ∷ es) = ground (arith, length-destroy_loop es)

IsKept-text :
    (o : Option Text) (bs : List Block)
    → IsKept entries_block bs
    → IsKept entries_block (text_blocks o ++ bs)
IsKept-text none bs h = h
IsKept-text (some t) bs h = (cc, h)

IsKept-destroy_loop :
    (es : List Entry) → IsKept entries_block (destroy_loop es ++ (struct_block ∷ []))
unfolding destroy_loop
IsKept-destroy_loop [] = (cc, tt)
IsKept-destroy_loop (x ∷ es) =
    rw
      (
        append_assoc (text_blocks x.key) (text_blocks x.val ++ destroy_loop es) (struct_block ∷ []),
        append_assoc (text_blocks x.val) (destroy_loop es) (struct_block ∷ []),
      )
      (IsKept-text x.key _ (IsKept-text x.val _ (IsKept-destroy_loop es)))

-- dictionary_destroy of any dictionary frees as many blocks as the entries have keys and
-- values, and one more for the struct; the array of entries is not among them.
pub dictionary_destroy_leaks :
    (d : Dictionary)
    → (length (dictionary_destroy (some d)) ≡ texts d.entries + 1)
      × IsKept entries_block (dictionary_destroy (some d))
unfolding dictionary_destroy
dictionary_destroy_leaks d = (length-destroy_loop d.entries, IsKept-destroy_loop d.entries)
