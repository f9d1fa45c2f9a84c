-- ===== src/Printlog/Pieces.antt =====
-- The bytes and the characters among what is printed.
use ohmylib.Prelude.{
  ℕ, ◌-◌, ◌%◌, ◌≡◌, refl, ap, ◌∙◌, Option, none, some, List, [], ◌∷◌, ◌++◌, append-nil, Memory,
  read_bytes, Bool-cases, inl, inr, ◌==◌, ◌&&◌, leb, if◌then◌else◌, arith,
}
use ohmylib.Printlog.{
  Event, reads, message, heading, offset, byte, character, blank, space, newline, flush, caption,
  row_offset, half_space, printable,
}

-- The bytes that are shown in hexadecimal digits.
abbrev pub bytes_of : List Event → List ℕ
bytes_of [] = []
bytes_of (byte b ∷ es) = b ∷ bytes_of es
bytes_of (e ∷ es) = bytes_of es

abbrev pub characters_of : List Event → List ℕ
characters_of [] = []
characters_of (character c ∷ es) = c ∷ characters_of es
characters_of (e ∷ es) = characters_of es

-- The low bytes of a block, as the code masks them.
abbrev pub bytes_at : Memory → ℕ → ℕ → List ℕ
bytes_at m p n = read_bytes (λ a. m a % 256) p n

-- A byte from 0x21 to 0x7d stands for itself, and any other, a space and a tilde among them, for
-- a dot.
abbrev pub visible : ℕ → ℕ
visible v = if leb 33 v && leb v 125 then v else 46

abbrev pub visible_at : Memory → ℕ → ℕ → List ℕ
visible_at m p n = read_bytes (λ a. visible (m a)) p n

pub printable-visible : (v : ℕ) → printable v ≡ visible v
printable-visible v = ground arith

pub bytes_of-append : (es fs : List Event) → bytes_of (es ++ fs) ≡ bytes_of es ++ bytes_of fs
bytes_of-append [] fs = refl
bytes_of-append (byte b ∷ es) fs = ap (λ bs. b ∷ bs) (bytes_of-append es fs)
bytes_of-append (reads a ∷ es) fs = bytes_of-append es fs
bytes_of-append (message t ∷ es) fs = bytes_of-append es fs
bytes_of-append (heading n ∷ es) fs = bytes_of-append es fs
bytes_of-append (offset n ∷ es) fs = bytes_of-append es fs
bytes_of-append (character c ∷ es) fs = bytes_of-append es fs
bytes_of-append (blank ∷ es) fs = bytes_of-append es fs
bytes_of-append (space ∷ es) fs = bytes_of-append es fs
bytes_of-append (newline ∷ es) fs = bytes_of-append es fs
bytes_of-append (flush ∷ es) fs = bytes_of-append es fs

pub characters_of-append :
    (es fs : List Event) → characters_of (es ++ fs) ≡ characters_of es ++ characters_of fs
characters_of-append [] fs = refl
characters_of-append (character c ∷ es) fs = ap (λ cs. c ∷ cs) (characters_of-append es fs)
characters_of-append (byte b ∷ es) fs = characters_of-append es fs
characters_of-append (reads a ∷ es) fs = characters_of-append es fs
characters_of-append (message t ∷ es) fs = characters_of-append es fs
characters_of-append (heading n ∷ es) fs = characters_of-append es fs
characters_of-append (offset n ∷ es) fs = characters_of-append es fs
characters_of-append (blank ∷ es) fs = characters_of-append es fs
characters_of-append (space ∷ es) fs = characters_of-append es fs
characters_of-append (newline ∷ es) fs = characters_of-append es fs
characters_of-append (flush ∷ es) fs = characters_of-append es fs

module _ (cut : ℕ → ℕ) (size len : ℕ) where
  -- The offset in front of a row shows nothing of the buffer.
  bytes_of-row_offset : (es : List Event) → bytes_of (row_offset cut size len ++ es) ≡ bytes_of es
  bytes_of-row_offset es = elim (Bool-cases ((size - len) % 16 == 0)) [
    | inl e ↦ elim (Bool-cases (size - len == 0)) [ inl f ↦ rw (e, f) | inr f ↦ rw (e, f) ]
    | inr e ↦ rw e
  ]

  characters_of-row_offset :
      (es : List Event) → characters_of (row_offset cut size len ++ es) ≡ characters_of es
  characters_of-row_offset es = elim (Bool-cases ((size - len) % 16 == 0)) [
    | inl e ↦ elim (Bool-cases (size - len == 0)) [ inl f ↦ rw (e, f) | inr f ↦ rw (e, f) ]
    | inr e ↦ rw e
  ]

  pub bytes_of-line :
      (row es : List Event)
      → bytes_of (row_offset cut size len ++ (row ++ es)) ≡ bytes_of row ++ bytes_of es
  bytes_of-line row es = bytes_of-row_offset (row ++ es) ∙ bytes_of-append row es

  pub characters_of-line :
      (row es : List Event)
      → characters_of (row_offset cut size len ++ (row ++ es))
        ≡ characters_of row ++ characters_of es
  characters_of-line row es = characters_of-row_offset (row ++ es) ∙ characters_of-append row es

pub bytes_of-half_space :
    (size tlen : ℕ) (es : List Event) → bytes_of (half_space size tlen ++ es) ≡ bytes_of es
bytes_of-half_space size tlen es = elim (Bool-cases ((size - tlen) % 8 == 0)) [
  | inl e ↦ rw e
  | inr e ↦ rw e
]

pub characters_of-half_space :
    (size tlen : ℕ) (es : List Event)
    → characters_of (half_space size tlen ++ es) ≡ characters_of es
characters_of-half_space size tlen es = elim (Bool-cases ((size - tlen) % 8 == 0)) [
  | inl e ↦ rw e
  | inr e ↦ rw e
]

-- Nor do the caption and the line of headings, which stand in front, and what ends a dump.
pub bytes_of-caption :
    (fmt : Option (List ℕ)) (es : List Event) → bytes_of (caption fmt ++ es) ≡ bytes_of es
bytes_of-caption none es = refl
bytes_of-caption (some t) es = refl

pub characters_of-caption :
    (fmt : Option (List ℕ)) (es : List Event) → characters_of (caption fmt ++ es) ≡ characters_of es
characters_of-caption none es = refl
characters_of-caption (some t) es = refl

pub bytes_of-end : (es : List Event) → bytes_of (es ++ (newline ∷ flush ∷ [])) ≡ bytes_of es
bytes_of-end es = bytes_of-append es (newline ∷ flush ∷ []) ∙ append-nil (bytes_of es)

pub characters_of-end :
    (es : List Event) → characters_of (es ++ (newline ∷ flush ∷ [])) ≡ characters_of es
characters_of-end es =
    characters_of-append es (newline ∷ flush ∷ []) ∙ append-nil (characters_of es)
