-- ===== src/Dictionary/Laws.antt =====
-- The operations of the dictionary on a valid dictionary: what they keep, and what a later
-- dictionary_get finds.
use ohmylib.Prelude.{
  ℕ, ◌+◌, ◌%◌, ◌^◌, ◌≤◌, ◌<◌, ◌≡◌, ◌≢◌, ◌⊎◌, refl, ap, arith, Option-cases, Bool-cases, inl, inr,
  true, Option, none, some, ◌∙◌,
}
use ohmylib.Prelude.{List, [], ◌∷◌, ltb, if◌then◌else◌, set, length, length-set}
use ohmylib.Dictionary.Text.{Text, text_eq}
use ohmylib.Dictionary.Hash.{dictionary_hash}
use ohmylib.Dictionary.Table.{Entry, Dictionary, dictionary_find_idx_by_key}
use ohmylib.Dictionary.Operations.{
  Allocations, Added, stored, set_val, dictionary_resize, refresh, insert, dictionary_get,
}
use ohmylib.Dictionary.Lookup.{lookup, occupied, find-lookup, find_empty_total}
use ohmylib.Dictionary.Updates.{entry_of, lookup-set_val, lookup-insert}
use ohmylib.Dictionary.Invariant.{
  IsTable, set_val-IsTable, occupied-set_val, length-set_val, insert-IsTable, occupied-insert,
  grown, lookup-grown, grown-IsTable, occupied-grown, length-grown,
}

pub record IsValid (d : Dictionary) : Type 0 where
  pub table : IsTable d.entries
  pub sized : length d.entries ≡ d.size
  pub counted : occupied d.entries ≡ d.count
  pub small : d.size + 128 < 2 ^ 64

-- The map that a dictionary stands for.
abbrev pub find : Dictionary → Text → Option (Option Text)
find d k = lookup d.entries k

pub occupied-le : (es : List Entry) → occupied es ≤ length es
occupied-le [] = omega arith
occupied-le (x ∷ es) = ground (arith, occupied-le es)

-- In a valid dictionary, dictionary_get, which compares hashes first, returns the value that a
-- search by keys alone finds, and the default where that finds none.
pub dictionary_get_lem :
    (d : Dictionary) (k : Text) (def : Option Text)
    → IsValid d
    → dictionary_get (some d) (some k) def ≡ elim (find d k) [ none ↦ def | some v ↦ v ]
unfolding dictionary_get
dictionary_get_lem d k def v = ground (arith, find-lookup d.entries k v.table.hashed)

abbrev pub all_succeed : Allocations
all_succeed = record { entries_ok = true; key_ok = true; val_ok = true }

-- The dictionary that `r` leaves holds `v` under `k`, and else what `d` held.
pub record Holds (d : Dictionary) (k : Text) (v : Option Text) (r : Added) : Type 0 where
  pub after : Dictionary
  pub returned : r ≡ stored after
  pub valid : IsValid after
  pub grows : after.size ≤ d.size + 128
  pub found : (j : Text) → find after j ≡ (if text_eq j k then some v else find d j)

pub resize_lem :
    (d : Dictionary)
    → IsValid d
    → d.size + 256 < 2 ^ 64
    → (d' : Dictionary) × (dictionary_resize true d ≡ some d')
      × IsValid d'
      × (d'.size ≤ d.size + 128)
      × (occupied d'.entries < length d'.entries)
      × ((j : Text) → find d' j ≡ find d j)
unfolding dictionary_resize
resize_lem d v room = elim (Bool-cases (ltb d.count d.size)) [
  | inl less ↦ (d, rw less, v, omega arith, ground arith, λ j. refl)
  | inr more ↦ (
    record d { size = (d.size + 128) % 2 ^ 64; entries = grown 128 d.entries },
    rw more,
    record {
      table = grown-IsTable 128 d.entries v.table;
      sized = length-grown 128 d.entries ∙ omega arith;
      counted = occupied-grown 128 d.entries ∙ v.counted;
      small = omega arith;
    },
    omega arith,
    omega (arith, length-grown 128 d.entries, occupied-grown 128 d.entries, occupied-le d.entries),
    λ j. lookup-grown 128 d.entries j,
  )
]

abbrev pub refreshed : Dictionary → ℕ → Option Text → Dictionary
refreshed d i v = record d { entries = set_val d.entries i v }

pub refresh-Holds :
    (d : Dictionary) (k t : Text) (i : ℕ)
    → IsValid d
    → dictionary_find_idx_by_key d.entries k (dictionary_hash (some k)) ≡ some i
    → Holds d k (some t) (refresh true d i (some t))
unfolding refresh
refresh-Holds d k t i v e = record {
  after = refreshed d i (some t);
  returned = refl;
  valid = record {
    table = set_val-IsTable (some t) d.entries i v.table;
    sized = length-set_val (some t) d.entries i ∙ v.sized;
    counted = occupied-set_val (some t) d.entries i ∙ v.counted;
    small = v.small;
  };
  grows = omega arith;
  found = λ j. lookup-set_val k (some t) j d.entries i v.table.hashed e;
}

pub insert-Holds :
    (d : Dictionary) (k : Text) (val : Option Text)
    → IsValid d
    → occupied d.entries < length d.entries
    → find d k ≡ none
    → (h : Holds d k val (insert all_succeed d k (dictionary_hash (some k)) val)) × (h.after.size
        ≡ d.size)
unfolding insert
insert-Holds d k val v room absent =
    let (i, e) = find_empty_total d.entries room in
    (
      record {
        after = record d {
          count = (d.count + 1) % 2 ^ 64;
          entries = set d.entries i (entry_of k val);
        };
        returned = ground arith;
        valid = record {
          table = insert-IsTable k val d.entries i e absent v.table;
          sized = length-set d.entries i _ ∙ v.sized;
          counted = omega (arith, occupied-insert k val d.entries i e);
          small = v.small;
        };
        grows = omega arith;
        found = λ j. lookup-insert k val j d.entries i e absent;
      },
      refl,
    )

-- What the search for the key says of the map.
pub index-cases :
    (d : Dictionary) (k : Text)
    → IsValid d
    → ((dictionary_find_idx_by_key d.entries k (dictionary_hash (some k)) ≡ none)
        × (find d k ≡ none))
      ⊎ ((i : ℕ) × (dictionary_find_idx_by_key d.entries k (dictionary_hash (some k)) ≡ some i)
          × (find d k ≢ none))
index-cases d k v =
    elim (Option-cases (dictionary_find_idx_by_key d.entries k (dictionary_hash (some k)))) [
      | inl e ↦ inl (e, ground (arith, find-lookup d.entries k v.table.hashed))
      | inr (i, e) ↦ inr (i, e, ground (arith, find-lookup d.entries k v.table.hashed))
    ]

pub Holds-find :
    (d d' : Dictionary) (k : Text) (val : Option Text) (r : Added)
    → (d'.size ≤ d.size + 128)
    → ((j : Text) → find d' j ≡ find d j)
    → (h : Holds d' k val r) → h.after.size ≡ d'.size
    → Holds d k val r
Holds-find d d' k val r size same h kept = record {
  after = h.after;
  returned = h.returned;
  valid = h.valid;
  grows = omega arith;
  found = λ j. h.found j ∙ ap (λ o. if text_eq j k then some val else o) (same j);
}
