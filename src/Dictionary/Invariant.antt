-- ===== src/Dictionary/Invariant.antt =====
-- What the updates of the entries keep: hashes, distinct keys, and the number of entries in use.
use ohmylib.Prelude.{ℕ, zero, suc, ◌+◌, ◌≡◌, refl, ap, arith, Option, none, some}
use ohmylib.Prelude.{
  List, [], ◌∷◌, ◌++◌, set, length, replicate, length-append, length-replicate, ◌∙◌,
}
use ohmylib.Dictionary.Text.{Text, text_eq_iff}
use ohmylib.Dictionary.Hash.{dictionary_hash}
use ohmylib.Dictionary.Table.{
  Entry, empty_entry, dictionary_find_idx_by_key, dictionary_find_idx_by_empty,
}
use ohmylib.Dictionary.Operations.{set_val}
use ohmylib.Dictionary.Lookup.{lookup, IsHashed, IsUnique, occupied}
use ohmylib.Dictionary.Updates.{entry_of, set_val-suc, lookup-insert}

-- What holds of the entries whatever their number.
pub record IsTable (es : List Entry) : Type 0 where
  pub hashed : IsHashed es
  pub unique : IsUnique es

module _ (v : Option Text) where
  lookup-set_val-none :
      (es : List Entry) (i : ℕ) (j : Text) → lookup es j ≡ none → lookup (set_val es i v) j ≡ none
  lookup-set_val-none [] i j n = refl
  lookup-set_val-none (x ∷ es) zero j n = ground arith
  lookup-set_val-none (x ∷ es) (suc i) j n =
      rw set_val-suc (ground (arith, lookup-set_val-none es i j))

  pub set_val-IsTable : (es : List Entry) (i : ℕ) → IsTable es → IsTable (set_val es i v)
  set_val-IsTable [] i t = t
  set_val-IsTable (x ∷ es) zero t = record { hashed = t.hashed; unique = t.unique }
  set_val-IsTable (x ∷ es) (suc i) t =
      let rest = set_val-IsTable es i (record { hashed = t.hashed.1; unique = t.unique.1 }) in
      rw set_val-suc (record {
        hashed = (t.hashed.0, rest.hashed);
        unique = (λ k e. lookup-set_val-none es i k (t.unique.0 k e), rest.unique);
      })

  pub occupied-set_val : (es : List Entry) (i : ℕ) → occupied (set_val es i v) ≡ occupied es
  occupied-set_val [] i = refl
  occupied-set_val (x ∷ es) zero = refl
  occupied-set_val (x ∷ es) (suc i) = rw set_val-suc (ground (arith, occupied-set_val es i))

  pub length-set_val : (es : List Entry) (i : ℕ) → length (set_val es i v) ≡ length es
  length-set_val [] i = refl
  length-set_val (x ∷ es) zero = refl
  length-set_val (x ∷ es) (suc i) = rw set_val-suc (ap suc (length-set_val es i))

module _ (k : Text) (v : Option Text) where
  pub insert-IsTable :
      (es : List Entry) (i : ℕ)
      → dictionary_find_idx_by_empty es ≡ some i
      → lookup es k ≡ none
      → IsTable es
      → IsTable (set es i (entry_of k v))
  unfolding dictionary_find_idx_by_empty
  insert-IsTable [] i e n t = cc
  insert-IsTable (x ∷ es) zero e n t = record {
    hashed = (λ j h. ap (λ o. dictionary_hash o) h, t.hashed.1);
    unique = (λ j h. ground arith, t.unique.1);
  }
  insert-IsTable (x ∷ es) (suc i) e n t =
      let found : dictionary_find_idx_by_empty es ≡ some i = ground arith in
      let absent : lookup es k ≡ none = ground arith in
      let rest =
        insert-IsTable es i found absent (record { hashed = t.hashed.1; unique = t.unique.1 }) in
      record {
        hashed = (t.hashed.0, rest.hashed);
        unique = (
          λ j h. ground (
            arith,
            lookup-insert k v j es i found absent,
            t.unique.0 j h,
            text_eq_iff j k,
            text_eq_iff k j,
          ),
          rest.unique,
        );
      }

  pub occupied-insert :
      (es : List Entry) (i : ℕ)
      → dictionary_find_idx_by_empty es ≡ some i
      → occupied (set es i (entry_of k v)) ≡ suc (occupied es)
  unfolding dictionary_find_idx_by_empty
  occupied-insert [] i e = cc
  occupied-insert (x ∷ es) zero e = ground arith
  occupied-insert (x ∷ es) (suc i) e = ground (arith, occupied-insert es i)

lookup-delete_none :
    (es : List Entry) (i : ℕ) (j : Text)
    → lookup es j ≡ none
    → lookup (set es i empty_entry) j ≡ none
lookup-delete_none [] i j n = refl
lookup-delete_none (x ∷ es) zero j n = ground arith
lookup-delete_none (x ∷ es) (suc i) j n = ground (arith, lookup-delete_none es i j)

pub delete-IsTable : (es : List Entry) (i : ℕ) → IsTable es → IsTable (set es i empty_entry)
delete-IsTable [] i t = t
delete-IsTable (x ∷ es) zero t = record {
  hashed = (λ k e. cc, t.hashed.1);
  unique = (λ k e. cc, t.unique.1);
}
delete-IsTable (x ∷ es) (suc i) t =
    let rest = delete-IsTable es i (record { hashed = t.hashed.1; unique = t.unique.1 }) in
    record {
      hashed = (t.hashed.0, rest.hashed);
      unique = (λ k e. lookup-delete_none es i k (t.unique.0 k e), rest.unique);
    }

pub occupied-delete :
    (k : Text) (hash : ℕ) (es : List Entry) (i : ℕ)
    → dictionary_find_idx_by_key es k hash ≡ some i
    → suc (occupied (set es i empty_entry)) ≡ occupied es
unfolding dictionary_find_idx_by_key
occupied-delete k hash [] i e = cc
occupied-delete k hash (x ∷ es) zero e = ground arith
occupied-delete k hash (x ∷ es) (suc i) e = ground (arith, occupied-delete k hash es i)

-- The array after a resize.
abbrev pub grown : ℕ → List Entry → List Entry
grown n es = es ++ replicate n empty_entry

pub lookup-new : (n : ℕ) (j : Text) → lookup (replicate n empty_entry) j ≡ none
lookup-new zero j = refl
lookup-new (suc n) j = lookup-new n j

pub lookup-grown : (n : ℕ) (es : List Entry) (j : Text) → lookup (grown n es) j ≡ lookup es j
lookup-grown n [] j = lookup-new n j
lookup-grown n (x ∷ es) j = ground (arith, lookup-grown n es j)

free-IsTable : (n : ℕ) → IsTable (replicate n empty_entry)
free-IsTable zero = record { hashed = tt; unique = tt }
free-IsTable (suc n) =
    let rest = free-IsTable n in
    record { hashed = (λ k e. cc, rest.hashed); unique = (λ k e. cc, rest.unique) }

pub grown-IsTable : (n : ℕ) (es : List Entry) → IsTable es → IsTable (grown n es)
grown-IsTable n [] t = free-IsTable n
grown-IsTable n (x ∷ es) t =
    let rest = grown-IsTable n es (record { hashed = t.hashed.1; unique = t.unique.1 }) in
    record {
      hashed = (t.hashed.0, rest.hashed);
      unique = (λ k e. lookup-grown n es k ∙ t.unique.0 k e, rest.unique);
    }

occupied_free : (n : ℕ) → occupied (replicate n empty_entry) ≡ 0
occupied_free zero = refl
occupied_free (suc n) = occupied_free n

pub occupied-grown : (n : ℕ) (es : List Entry) → occupied (grown n es) ≡ occupied es
occupied-grown n [] = occupied_free n
occupied-grown n (x ∷ es) = ground (arith, occupied-grown n es)

pub length-grown : (n : ℕ) (es : List Entry) → length (grown n es) ≡ length es + n
length-grown n es =
    length-append es (replicate n empty_entry) ∙ ap (λ k. length es + k) (length-replicate n _)

pub created-IsTable :
    (n : ℕ) → IsTable (replicate n empty_entry) × (occupied (replicate n empty_entry) ≡ 0)
created-IsTable n = (free-IsTable n, occupied_free n)
