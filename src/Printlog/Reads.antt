-- ===== src/Printlog/Reads.antt =====
-- Which addresses the dumps read.
use mathlib.Core.Option
use native.Mathlib.Decide.{dec_lt}
use ohmylib.Prelude.{
  ℕ, zero, suc, ◌+◌, ◌-◌, ◌%◌, bit_and, ◌≤◌, ◌<◌, ◌≡◌, ◌⊎◌, refl, ap, ◌∙◌, arith, Option, none,
  some, List, [], ◌∷◌, ◌++◌, append-nil, Memory, Bool-cases, inl, inr, ◌==◌,
}
use ohmylib.Printlog.{
  Event, reads, message, heading, offset, byte, character, blank, space, newline, flush, caption,
  row_offset, dump_row, dump_loop, dump,
}

abbrev pub addresses_of : List Event → List ℕ
addresses_of [] = []
addresses_of (reads a ∷ es) = a ∷ addresses_of es
addresses_of (e ∷ es) = addresses_of es

abbrev pub IsAmong : ℕ → List ℕ → Type 0
IsAmong a [] = ⊥
IsAmong a (b ∷ bs) = (a ≡ b) ⊎ IsAmong a bs

IsAmong-left : (a : ℕ) (xs ys : List ℕ) → IsAmong a xs → IsAmong a (xs ++ ys)
IsAmong-left a [] ys h = absurd h
IsAmong-left a (x ∷ xs) ys (inl e) = inl e
IsAmong-left a (x ∷ xs) ys (inr h) = inr (IsAmong-left a xs ys h)

IsAmong-right : (a : ℕ) (xs ys : List ℕ) → IsAmong a ys → IsAmong a (xs ++ ys)
IsAmong-right a [] ys h = h
IsAmong-right a (x ∷ xs) ys h = inr (IsAmong-right a xs ys h)

abbrev pub AllWithin : ℕ → ℕ → List ℕ → Type 0
AllWithin lo hi [] = Unit
AllWithin lo hi (a ∷ as') = (lo ≤ a) × (a ≤ hi) × AllWithin lo hi as'

AllWithin-append :
    (lo hi : ℕ) (xs ys : List ℕ)
    → AllWithin lo hi xs
    → AllWithin lo hi ys
    → AllWithin lo hi (xs ++ ys)
AllWithin-append lo hi [] ys hx hy = hy
AllWithin-append lo hi (x ∷ xs) ys (l, h, rest) hy = (l, h, AllWithin-append lo hi xs ys rest hy)

addresses_of-append :
    (es fs : List Event) → addresses_of (es ++ fs) ≡ addresses_of es ++ addresses_of fs
addresses_of-append [] fs = refl
addresses_of-append (reads a ∷ es) fs = ap (λ as'. a ∷ as') (addresses_of-append es fs)
addresses_of-append (character c ∷ es) fs = addresses_of-append es fs
addresses_of-append (byte b ∷ es) fs = addresses_of-append es fs
addresses_of-append (message t ∷ es) fs = addresses_of-append es fs
addresses_of-append (heading n ∷ es) fs = addresses_of-append es fs
addresses_of-append (offset n ∷ es) fs = addresses_of-append es fs
addresses_of-append (blank ∷ es) fs = addresses_of-append es fs
addresses_of-append (space ∷ es) fs = addresses_of-append es fs
addresses_of-append (newline ∷ es) fs = addresses_of-append es fs
addresses_of-append (flush ∷ es) fs = addresses_of-append es fs

-- The offset in front of a row reads nothing.
addresses_of-line :
    (cut : ℕ → ℕ) (size len : ℕ) (row es : List Event)
    → addresses_of (row_offset cut size len ++ (row ++ es)) ≡ addresses_of row ++ addresses_of es
addresses_of-line cut size len row es = elim (Bool-cases ((size - len) % 16 == 0)) [
  | inl e ↦ elim (Bool-cases (size - len == 0)) [
    | inl f ↦ rw (e, f) (addresses_of-append row es)
    | inr f ↦ rw (e, f) (addresses_of-append row es)
  ]
  | inr e ↦ rw e (addresses_of-append row es)
]

dump_row_place :
    (m : Memory) (left len buf : ℕ)
    → let row = dump_row m left len buf in (row.len ≡ len - left) × (row.buf + row.len ≡ buf + len)
unfolding dump_row
dump_row_place m zero len buf = (omega arith, refl)
dump_row_place m (suc left) zero buf =
    let (l, b) = dump_row_place m left zero buf in (omega (arith, l), omega (arith, b))
dump_row_place m (suc left) (suc len) buf =
    let (l, b) = dump_row_place m left len (buf + 1) in (omega (arith, l), omega (arith, b))

-- A row that is longer than what is left of the block reads the byte behind it.
dump_row_overruns :
    (m : Memory) (hi left len buf : ℕ)
    → len < left
    → buf + len ≡ hi
    → IsAmong hi (addresses_of (dump_row m left len buf).events)
unfolding dump_row
dump_row_overruns m hi zero len buf h e = absurd (omega arith)
dump_row_overruns m hi (suc left) zero buf h e = inl (omega arith)
dump_row_overruns m hi (suc left) (suc len) buf h e =
    inr (dump_row_overruns m hi left len (buf + 1) (omega arith) (omega arith))

dump_row_within :
    (m : Memory) (lo hi left len buf : ℕ)
    → lo ≤ buf
    → buf + len ≤ hi
    → AllWithin lo hi (addresses_of (dump_row m left len buf).events)
unfolding dump_row
dump_row_within m lo hi zero len buf l h = tt
dump_row_within m lo hi (suc left) zero buf l h =
    (l, omega arith, dump_row_within m lo hi left zero buf l h)
dump_row_within m lo hi (suc left) (suc len) buf l h =
    (l, omega arith, dump_row_within m lo hi left len (buf + 1) (omega arith) (omega arith))

dump_loop_reads :
    (m : Memory) (size rounds lo hi len buf : ℕ)
    → len ≤ rounds
    → lo ≤ buf
    → buf + len ≡ hi
    → (es : List Event) × (dump_loop m size rounds len buf ≡ some es)
      × AllWithin lo hi (addresses_of es)
      × ((len % 16 ≡ 0) ⊎ IsAmong hi (addresses_of es))
unfolding dump_loop
dump_loop_reads m size rounds lo hi zero buf h l u = ([], refl, tt, inl refl)
dump_loop_reads m size zero lo hi (suc len) buf h l u = absurd (omega arith)
dump_loop_reads m size (suc rounds) lo hi (suc len) buf h l u =
    let row = dump_row m 16 (suc len) buf in
    let (left, place) = dump_row_place m 16 (suc len) buf in
    let (es, got, within, over) =
      dump_loop_reads m size rounds lo hi row.len row.buf (omega (arith, left))
        (omega (arith, left, place)) (omega (arith, place)) in
    let line = addresses_of-line (λ n. bit_and n 0xff) size (suc len) row.events es in
    (
      _,
      ap (Option.map _) got,
      rw line (
          AllWithin-append lo hi (addresses_of row.events) (addresses_of es)
            (dump_row_within m lo hi 16 (suc len) buf l (omega arith)) within),
      rw line (ending es left over),
    )
  where
    ending :
        (es : List Event)
        → (dump_row m 16 (suc len) buf).len ≡ suc len - 16
        → ((dump_row m 16 (suc len) buf).len % 16 ≡ 0) ⊎ IsAmong hi (addresses_of es)
        → (suc len % 16 ≡ 0)
          ⊎ IsAmong hi (addresses_of (dump_row m 16 (suc len) buf).events ++ addresses_of es)
    ending es left (inr later) = inr (IsAmong-right hi _ (addresses_of es) later)
    ending es left (inl even) = elim (dec_lt (suc len) 16) [
      | yes lt ↦
          inr (IsAmong-left hi _ (addresses_of es) (dump_row_overruns m hi 16 (suc len) buf lt u))
      | no ge ↦ inl (omega arith)
    ]

addresses_of-caption :
    (fmt : Option (List ℕ)) (es : List Event) → addresses_of (caption fmt ++ es) ≡ addresses_of es
addresses_of-caption none es = refl
addresses_of-caption (some t) es = refl

-- dump of every block ends, reads only addresses from the start of the block to the one behind
-- its end, and reads that one behind the end where the size is not a multiple of 16.
pub dump_reads :
    (m : Memory) (p size : ℕ) (fmt : Option (List ℕ))
    → (es : List Event) × (dump m p size fmt ≡ some es)
      × AllWithin p (p + size) (addresses_of es)
      × ((size % 16 ≡ 0) ⊎ IsAmong (p + size) (addresses_of es))
unfolding dump
dump_reads m p size fmt =
    let (es, got, within, over) =
      dump_loop_reads m size size p (p + size) size p (omega arith) (omega arith) refl in
    let same : addresses_of (es ++ (newline ∷ flush ∷ [])) ≡ addresses_of es =
      addresses_of-append es (newline ∷ flush ∷ []) ∙ append-nil (addresses_of es) in
    (
      _,
      ap (Option.map _) got,
      rw (addresses_of-caption fmt _) (rw same within),
      rw (addresses_of-caption fmt _) (rw same over),
    )
