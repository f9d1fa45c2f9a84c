-- ===== src/Dictionary/Updates.antt =====
-- What the updates of the entries make of the map, and what they keep.
use ohmylib.Prelude.{ℕ, zero, suc, ◌≡◌, arith, Option-cases, inl, inr, Option, none, some}
use ohmylib.Prelude.{List, [], ◌∷◌, if◌then◌else◌, set}
use ohmylib.Dictionary.Text.{Text, text_eq, text_eq_iff}
use ohmylib.Dictionary.Hash.{dictionary_hash}
use ohmylib.Dictionary.Table.{
  Entry, empty_entry, dictionary_find_idx_by_key, dictionary_find_idx_by_empty,
}
use ohmylib.Dictionary.Operations.{set_val}
use ohmylib.Dictionary.Lookup.{lookup, IsHashed, IsUnique}

-- A new key with its value, as it is put into a free entry.
abbrev pub entry_of : Text → Option Text → Entry
entry_of k v = record { hash = dictionary_hash (some k); key = some k; val = v }

pub set_val-suc :
    (e : Entry) (es : List Entry) (i : ℕ) (v : Option Text)
    → set_val (e ∷ es) (suc i) v ≡ e ∷ set_val es i v
set_val-suc e es i v = ground arith

module _ (k : Text) (v : Option Text) (j : Text) where
  pub lookup-set_val :
      (es : List Entry) (i : ℕ)
      → IsHashed es
      → dictionary_find_idx_by_key es k (dictionary_hash (some k)) ≡ some i
      → lookup (set_val es i v) j ≡ (if text_eq j k then some v else lookup es j)
  unfolding dictionary_find_idx_by_key
  lookup-set_val [] i h e = cc
  lookup-set_val (x ∷ es) zero h e = elim (Option-cases x.key) [
    | inl free ↦ ground arith
    | inr (l, has) ↦ ground (arith, text_eq_iff k l, text_eq_iff j k)
  ]
  lookup-set_val (x ∷ es) (suc i) h e = rw set_val-suc (elim (Option-cases x.key) [
    | inl free ↦ ground (arith, lookup-set_val es i h.1)
    | inr (l, has) ↦ ground (
      arith,
      lookup-set_val es i h.1,
      h.0 l has,
      text_eq_iff k l,
      text_eq_iff j k,
      text_eq_iff j l,
    )
  ])

  pub lookup-insert :
      (es : List Entry) (i : ℕ)
      → dictionary_find_idx_by_empty es ≡ some i
      → lookup es k ≡ none
      → lookup (set es i (entry_of k v)) j ≡ (if text_eq j k then some v else lookup es j)
  unfolding dictionary_find_idx_by_empty
  lookup-insert [] i e n = cc
  lookup-insert (x ∷ es) zero e n = ground arith
  lookup-insert (x ∷ es) (suc i) e n = elim (Option-cases x.key) [
    | inl free ↦ cc
    | inr (l, has) ↦
        ground (arith, lookup-insert es i, text_eq_iff k l, text_eq_iff j k, text_eq_iff j l)
  ]

  pub lookup-delete :
      (es : List Entry) (i : ℕ)
      → IsHashed es
      → IsUnique es
      → dictionary_find_idx_by_key es k (dictionary_hash (some k)) ≡ some i
      → lookup (set es i empty_entry) j ≡ (if text_eq j k then none else lookup es j)
  unfolding dictionary_find_idx_by_key
  lookup-delete [] i h u e = cc
  lookup-delete (x ∷ es) zero h u e = elim (Option-cases x.key) [
    | inl free ↦ ground arith
    | inr (l, has) ↦ ground (arith, u.0 l has, text_eq_iff k l, text_eq_iff j k, text_eq_iff j l)
  ]
  lookup-delete (x ∷ es) (suc i) h u e = elim (Option-cases x.key) [
    | inl free ↦ ground (arith, lookup-delete es i h.1 u.1)
    | inr (l, has) ↦ ground (
      arith,
      lookup-delete es i h.1 u.1,
      h.0 l has,
      text_eq_iff k l,
      text_eq_iff j k,
      text_eq_iff j l,
    )
  ]
