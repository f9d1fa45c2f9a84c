-- ===== src/Dictionary/Refine.antt =====
-- Sequences of calls against a partial map from keys to values.
use ohmylib.Prelude.{ℕ, suc, ◌+◌, ◌*◌, ◌^◌, ◌<◌, ◌≡◌, refl, ap, arith, inr, Option, none, some, ◌∙◌}
use ohmylib.Prelude.{List, [], ◌∷◌, if◌then◌else◌, length}
use ohmylib.Dictionary.Text.{Text, text_eq}
use ohmylib.Dictionary.Table.{Dictionary}
use ohmylib.Dictionary.Operations.{Added, stored, dictionary_add, dictionary_get, dictionary_del}
use ohmylib.Dictionary.Laws.{IsValid, find, all_succeed, dictionary_get_lem}
use ohmylib.Dictionary.Adding.{dictionary_add-Holds}
use ohmylib.Dictionary.Deleting.{dictionary_del_lem}

pub data Operation : Type 0 where
  add : Text → Text → Operation
  del : Text → Operation

abbrev pub Map : Type 0
Map = Text → Option (Option Text)

-- The specification: a map that is updated at one key.
abbrev pub apply : Operation → Map → Map
apply (add k t) m j = if text_eq j k then some (some t) else m j
apply (del k) m j = if text_eq j k then none else m j

abbrev pub apply_all : List Operation → Map → Map
apply_all [] m = m
apply_all (o ∷ os) m = apply_all os (apply o m)

-- The code's step; `none` where a call does not succeed.
abbrev pub call : Operation → Dictionary → Option Dictionary
call (add k t) d = elim (dictionary_add all_succeed (some d) (some k) (some t)) [
  | stored d' ↦ some d'
  | _ ↦ none
]
call (del k) d = dictionary_del (some d) (some k)

unfoldable pub call_all : List Operation → Dictionary → Option Dictionary
call_all [] d = some d
call_all (o ∷ os) d = elim (call o d) [ none ↦ none | some d' ↦ call_all os d' ]

pub record Refines (d : Dictionary) (m : Map) (room : ℕ) : Type 0 where
  pub valid : IsValid d
  pub room_left : d.size + 128 * room + 128 < 2 ^ 64
  pub agrees : (j : Text) → find d j ≡ m j

step :
    (o : Operation) (d : Dictionary) (m : Map) (room : ℕ)
    → Refines d m (suc room)
    → (d' : Dictionary) × (call o d ≡ some d') × Refines d' (apply o m) room
step (add k t) d m room r =
    let h = dictionary_add-Holds d k (some t) r.valid (omega arith) (inr (cc)) in
    (
      h.after,
      ap (λ (x : Added). elim x as (λ y. Option Dictionary) [ stored d' ↦ some d' | _ ↦ none ])
          h.returned,
      record {
        valid = h.valid;
        room_left = omega (arith, h.grows);
        agrees = λ j. h.found j ∙ ap (λ o. if text_eq j k then some (some t) else o) (r.agrees j);
      },
    )
step (del k) d m room r =
    let (d', e, v, size, found) = dictionary_del_lem d k r.valid in
    (
      d',
      e,
      record {
        valid = v;
        room_left = omega (arith, size);
        agrees = λ j. found j ∙ ap (λ o. if text_eq j k then none else o) (r.agrees j);
      },
    )

pub steps :
    (os : List Operation) (d : Dictionary) (m : Map)
    → Refines d m (length os)
    → (d' : Dictionary) × (call_all os d ≡ some d') × Refines d' (apply_all os m) 0
unfolding call_all
steps [] d m r = (d, refl, r)
steps (o ∷ os) d m r =
    let (d1, e1, r1) = step o d m (length os) r in
    let (d2, e2, r2) = steps os d1 (apply o m) r1 in (d2, rw (e1, call_all) e2, r2)

-- From a valid dictionary whose size, and 128 entries for each call and 128 more, stay below 2
-- ^ 64, every sequence of additions (whose allocations succeed) and deletions succeeds and
-- ends in a valid dictionary, whose answer for every key and default is that of the abstract
-- map after the same updates.
pub call_all_refines :
    (os : List Operation) (d : Dictionary)
    → IsValid d
    → d.size + 128 * length os + 128 < 2 ^ 64
    → (d' : Dictionary) × (call_all os d ≡ some d')
      × IsValid d'
      × ((k : Text) (def : Option Text)
          → dictionary_get (some d') (some k) def
            ≡ elim (apply_all os (find d) k) [ none ↦ def | some v ↦ v ])
call_all_refines os d v room =
    let (d', e, r) =
      steps os d (find d) (record { valid = v; room_left = room; agrees = λ j. refl }) in
    (
      d',
      e,
      r.valid,
      λ k def.
          dictionary_get_lem d' k def r.valid
          ∙ ap
              (λ (o : Option (Option Text)). elim o as (λ x. Option Text) [
                | none ↦ def
                | some t ↦ t
              ])
              (r.agrees k),
    )
