-- ===== src/Dictionary/Adding.antt =====
-- dictionary_add, and the allocations it depends on.
use ohmylib.Prelude.{
  ℕ, zero, suc, ◌+◌, ◌%◌, ◌^◌, ◌<◌, ◌≡◌, ◌≢◌, ◌⊎◌, refl, arith, inl, inr, false, Option, none, some,
  ◌∙◌,
}
use ohmylib.Prelude.{List, [], ◌∷◌, set}
use ohmylib.Dictionary.Text.{Text}
use ohmylib.Dictionary.Hash.{dictionary_hash}
use ohmylib.Dictionary.Table.{
  Entry, Dictionary, dictionary_find_idx_by_key, dictionary_find_idx_by_empty,
}
use ohmylib.Dictionary.Operations.{stored, dictionary_resize, insert, dictionary_add}
use ohmylib.Dictionary.Lookup.{lookup, occupied, find_empty_total}
use ohmylib.Dictionary.Laws.{
  IsValid, find, all_succeed, Holds, resize_lem, refresh-Holds, insert-Holds, index-cases,
  Holds-find,
}

add_new :
    (d : Dictionary) (k : Text) (val : Option Text)
    → IsValid d
    → d.size + 256 < 2 ^ 64
    → dictionary_find_idx_by_key d.entries k (dictionary_hash (some k)) ≡ none
    → find d k ≡ none
    → Holds d k val (dictionary_add all_succeed (some d) (some k) val)
unfolding dictionary_add
add_new d k val v room e absent =
    let (d', resized, v', size, free, same) = resize_lem d v room in
    let (h, kept) = insert-Holds d' k val v' free (same k ∙ absent) in
    rw (e, resized, dictionary_add) (Holds-find d d' k val _ size same h kept)

-- In a valid dictionary whose size plus 256 is below 2 ^ 64, where the allocations succeed and
-- the value is not NULL or the key is new, dictionary_add returns 0 and leaves a valid
-- dictionary that has grown by at most 128 entries, in which the key has the value and every
-- other key has what it had.
pub dictionary_add-Holds :
    (d : Dictionary) (k : Text) (val : Option Text)
    → IsValid d
    → d.size + 256 < 2 ^ 64
    → (find d k ≡ none) ⊎ (val ≢ none)
    → Holds d k val (dictionary_add all_succeed (some d) (some k) val)
unfolding dictionary_add
dictionary_add-Holds d k none v room ok = elim (index-cases d k v) [
  | inl (e, absent) ↦ add_new d k none v room e absent
  | inr (i, e, there) ↦ absurd (neither ok there)
]
  where
    neither : (find d k ≡ none) ⊎ (◌≢◌ {A = Option Text} none none) → find d k ≢ none → ⊥
    neither (inl a) there = there a
    neither (inr n) there = n refl
dictionary_add-Holds d k (some t) v room ok = elim (index-cases d k v) [
  | inl (e, absent) ↦ add_new d k (some t) v room e absent
  | inr (i, e, there) ↦ rw (e, dictionary_add) (refresh-Holds d k t i v e)
]

-- An entry without a key, put into a free place, is not seen.
lookup_keyless :
    (h : ℕ) (val : Option Text) (es : List Entry) (i : ℕ) (j : Text)
    → dictionary_find_idx_by_empty es ≡ some i
    → (lookup (set es i (record { hash = h; key = none; val = val })) j ≡ lookup es j)
      × (occupied (set es i (record { hash = h; key = none; val = val })) ≡ occupied es)
unfolding dictionary_find_idx_by_empty
lookup_keyless h val [] i j e = cc
lookup_keyless h val (x ∷ es) zero j e = (ground arith, ground arith)
lookup_keyless h val (x ∷ es) (suc i) j e =
    (ground (arith, lookup_keyless h val es i j), ground (arith, lookup_keyless h val es i j))

-- In a valid dictionary that is not full, where strdup of a new key fails, dictionary_add
-- returns 0, the key is not there, and the count is one more than the entries in use.
pub dictionary_add_key_lost :
    (d : Dictionary) (k : Text) (val : Option Text)
    → IsValid d
    → d.count < d.size
    → find d k ≡ none
    → (d' : Dictionary) × (dictionary_add
          (record all_succeed { key_ok = false })
          (some d)
          (some k)
          val
        ≡ stored d')
      × (find d' k ≡ none)
      × (d'.count ≡ occupied d'.entries + 1)
unfolding dictionary_add dictionary_resize insert
dictionary_add_key_lost d k val v room absent = elim (index-cases d k v) [
  | inr (i, e, there) ↦ absurd (there absent)
  | inl (e, _) ↦
      let (i, free) = find_empty_total d.entries (omega arith) in
      let same = lookup_keyless (dictionary_hash (some k)) val d.entries i k free in
      (
        record d {
          count = (d.count + 1) % 2 ^ 64;
          entries =
              set d.entries i (record { hash = dictionary_hash (some k); key = none; val = val });
        },
        ground arith,
        same.0 ∙ absent,
        omega (arith, same),
      )
]
