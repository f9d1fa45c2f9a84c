-- ===== src/Dictionary/Lookup.antt =====
-- The abstract view of the entries, a partial map from keys to values, and the searches against it.
use ohmylib.Prelude.{
  ℕ, zero, suc, ◌<◌, ◌≡◌, refl, arith, Option-cases, inl, inr, Option, none, some,
}
use ohmylib.Prelude.{List, [], ◌∷◌, if◌then◌else◌, length}
use ohmylib.Dictionary.Text.{Text, text_eq, text_eq_iff}
use ohmylib.Dictionary.Hash.{dictionary_hash}
use ohmylib.Dictionary.Table.{
  Entry, value_at, dictionary_find_idx_by_key, dictionary_find_idx_by_empty,
}

-- The value under a key, if the key is there; the value may be NULL.
abbrev pub lookup : List Entry → Text → Option (Option Text)
lookup [] k = none
lookup (e ∷ es) k = elim e.key [
  | none ↦ lookup es k
  | some j ↦ if text_eq k j then some e.val else lookup es k
]

-- Every key is stored with its hash.
abbrev pub IsHashed : List Entry → Type 0
IsHashed [] = Unit
IsHashed (e ∷ es) = ((k : Text) → e.key ≡ some k → e.hash ≡ dictionary_hash (some k)) × IsHashed es

-- No key stands in two entries.
abbrev pub IsUnique : List Entry → Type 0
IsUnique [] = Unit
IsUnique (e ∷ es) = ((k : Text) → e.key ≡ some k → lookup es k ≡ none) × IsUnique es

-- The number of entries that hold a key.
abbrev pub occupied : List Entry → ℕ
occupied [] = 0
occupied (e ∷ es) = elim e.key [ none ↦ occupied es | some k ↦ suc (occupied es) ]

-- What a search for a key finds is what the map holds.
pub find-lookup :
    (es : List Entry) (k : Text)
    → IsHashed es
    → lookup es k ≡ elim (dictionary_find_idx_by_key es k (dictionary_hash (some k))) [
      | none ↦ none
      | some i ↦ some (value_at es i)
    ]
unfolding dictionary_find_idx_by_key
find-lookup [] k h = refl
find-lookup (e ∷ es) k h = elim (Option-cases e.key) [
  | inl free ↦ ground (arith, find-lookup es k h.1)
  | inr (j, has) ↦ ground (arith, find-lookup es k h.1, h.0 j has, text_eq_iff k j)
]

pub find_bound :
    (es : List Entry) (k : Text) (hash i : ℕ)
    → dictionary_find_idx_by_key es k hash ≡ some i
    → i < length es
unfolding dictionary_find_idx_by_key
find_bound [] k hash i e = cc
find_bound (x ∷ es) k hash zero e = omega arith
find_bound (x ∷ es) k hash (suc i) e = ground (arith, find_bound es k hash i)

pub find_empty_bound :
    (es : List Entry) (i : ℕ) → dictionary_find_idx_by_empty es ≡ some i → i < length es
unfolding dictionary_find_idx_by_empty
find_empty_bound [] i e = cc
find_empty_bound (x ∷ es) zero e = omega arith
find_empty_bound (x ∷ es) (suc i) e = ground (arith, find_empty_bound es i)

-- A free entry is found wherever not all are occupied.
pub find_empty_total :
    (es : List Entry)
    → occupied es < length es
    → (i : ℕ) × (dictionary_find_idx_by_empty es ≡ some i)
unfolding dictionary_find_idx_by_empty
find_empty_total [] h = absurd (omega arith)
find_empty_total (x ∷ es) h = elim (Option-cases x.key) [
  | inl free ↦ (0, rw free)
  | inr (k, has) ↦ let (i, e) = find_empty_total es (ground arith) in (suc i, ground arith)
]
