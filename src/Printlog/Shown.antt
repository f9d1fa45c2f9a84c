-- ===== src/Printlog/Shown.antt =====
-- The bytes and the characters that the dumps print.
use mathlib.Core.Option
use ohmylib.Prelude.{
  ℕ, zero, suc, ◌+◌, ◌-◌, ◌%◌, ◌^◌, ◌≤◌, ◌≡◌, refl, sym, ap, ap₂, ◌∙◌, arith, bit_and, bit_and_byte,
  Option, some, List, [], ◌∷◌, ◌++◌, Memory,
}
use ohmylib.Printlog.{
  Event, space, dump_row, dump_loop, dump, fdump, hex_row, text_row, hexdump_loop, hexdump,
  fhexdump,
}
use ohmylib.Printlog.Pieces.{
  bytes_of, characters_of, bytes_at, visible_at, bytes_of-append, characters_of-append,
  bytes_of-line, characters_of-line, bytes_of-half_space, characters_of-half_space,
  bytes_of-caption, characters_of-caption, bytes_of-end, characters_of-end, printable-visible,
}

-- A row of dump shows a first part of the block, and leaves the rest.
dump_row_shows :
    (m : Memory) (left len buf : ℕ)
    → let row = dump_row m left len buf in
      (bytes_of row.events ++ bytes_at m row.buf row.len ≡ bytes_at m buf len)
      × (row.len ≡ len - left)
unfolding dump_row
dump_row_shows m zero len buf = (refl, omega arith)
dump_row_shows m (suc left) zero buf =
    let (shown, l) = dump_row_shows m left zero buf in (shown, omega (arith, l))
dump_row_shows m (suc left) (suc len) buf =
    let (shown, l) = dump_row_shows m left len (buf + 1) in
    (ap₂ ◌∷◌ (bit_and_byte (m buf)) shown, omega (arith, l))

dump_loop_shows :
    (m : Memory) (size rounds len buf : ℕ)
    → len ≤ rounds
    → (es : List Event) × (dump_loop m size rounds len buf ≡ some es)
      × (bytes_of es ≡ bytes_at m buf len)
unfolding dump_loop
dump_loop_shows m size rounds zero buf h = ([], refl, refl)
dump_loop_shows m size zero (suc len) buf h = absurd (omega arith)
dump_loop_shows m size (suc rounds) (suc len) buf h =
    let (shown, l) = dump_row_shows m 16 (suc len) buf in
    let (es, got, rest) =
      dump_loop_shows m size rounds (dump_row m 16 (suc len) buf).len
        (dump_row m 16 (suc len) buf).buf (omega (arith, l)) in
    (
      _,
      ap (Option.map _) got,
      bytes_of-line (λ n. bit_and n 0xff) size (suc len) (dump_row m 16 (suc len) buf).events es
          ∙ ap (λ bs. bytes_of (dump_row m 16 (suc len) buf).events ++ bs) rest
          ∙ shown,
    )

-- dump and fdump of every block end and print the same, and the bytes they print are those of
-- the block in order.
pub dump_lem :
    (f : ℕ) (m : Memory) (p size : ℕ) (fmt : Option (List ℕ))
    → (es : List Event) × (dump m p size fmt ≡ some es)
      × (fdump f m p size fmt ≡ (f, some es))
      × (bytes_of es ≡ bytes_at m p size)
unfolding dump fdump
dump_lem f m p size fmt =
    let (es, got, shown) = dump_loop_shows m size size size p (omega arith) in
    (
      _,
      ap (Option.map _) got,
      ap (λ o. (f, o)) (ap (Option.map _) got),
      bytes_of-caption fmt _ ∙ bytes_of-end es ∙ shown,
    )

-- The two halves of a row of hexdump.
hex_row_shows :
    (m : Memory) (left hlen hbuf : ℕ)
    → let row = hex_row m left hlen hbuf in
      (bytes_of row.events ++ bytes_at m row.buf row.len ≡ bytes_at m hbuf hlen)
      × (characters_of row.events ≡ [])
      × (row.len ≡ hlen - left)
      × (row.buf ≡ hbuf + (hlen - row.len))
unfolding hex_row
hex_row_shows m zero hlen hbuf = (refl, refl, omega arith, omega arith)
hex_row_shows m (suc left) zero hbuf =
    let (shown, none_of, l, b) = hex_row_shows m left zero hbuf in
    (shown, none_of, omega (arith, l), omega (arith, l, b))
hex_row_shows m (suc left) (suc hlen) hbuf =
    let (shown, none_of, l, b) = hex_row_shows m left hlen (hbuf + 1) in
    (ap₂ ◌∷◌ (bit_and_byte (m hbuf)) shown, none_of, omega (arith, l), omega (arith, l, b))

text_row_shows :
    (m : Memory) (size left tlen cbuf : ℕ)
    → let row = text_row m size left tlen cbuf in
      (characters_of row.events ++ visible_at m row.buf row.len ≡ visible_at m cbuf tlen)
      × (bytes_of row.events ≡ [])
      × (row.len ≡ tlen - left)
      × (row.buf ≡ cbuf + (tlen - row.len))
unfolding text_row
text_row_shows m size zero tlen cbuf = (refl, refl, omega arith, omega arith)
text_row_shows m size (suc left) zero cbuf =
    let (shown, none_of, l, b) = text_row_shows m size left zero cbuf in
    (
      rw characters_of-half_space shown,
      bytes_of-half_space size zero _ ∙ none_of,
      omega (arith, l),
      omega (arith, l, b),
    )
text_row_shows m size (suc left) (suc tlen) cbuf =
    let (shown, none_of, l, b) = text_row_shows m size left tlen (cbuf + 1) in
    (
      rw characters_of-half_space (ap₂ ◌∷◌ (printable-visible (m cbuf)) shown),
      bytes_of-half_space size (suc tlen) _ ∙ none_of,
      omega (arith, l),
      omega (arith, l, b),
    )

-- Both halves go through the block in step.
hexdump_loop_shows :
    (m : Memory) (size rounds hlen hbuf tlen cbuf : ℕ)
    → tlen ≤ rounds
    → hlen ≡ tlen
    → hbuf ≡ cbuf
    → (es : List Event) × (hexdump_loop m size rounds hlen hbuf tlen cbuf ≡ some es)
      × (bytes_of es ≡ bytes_at m hbuf hlen)
      × (characters_of es ≡ visible_at m cbuf tlen)
unfolding hexdump_loop
hexdump_loop_shows m size rounds hlen hbuf zero cbuf h el eb =
    ([], refl, ap (bytes_at m hbuf) (sym el), refl)
hexdump_loop_shows m size zero hlen hbuf (suc tlen) cbuf h el eb = absurd (omega arith)
hexdump_loop_shows m size (suc rounds) hlen hbuf (suc tlen) cbuf h el eb =
    let hex = hex_row m 16 hlen hbuf in
    let text = text_row m size 16 (suc tlen) cbuf in
    let (bytes, no_text, hl, hb) = hex_row_shows m 16 hlen hbuf in
    let (chars, no_bytes, tl, tb) = text_row_shows m size 16 (suc tlen) cbuf in
    let (es, got, rest_bytes, rest_chars) =
      hexdump_loop_shows m size rounds hex.len hex.buf text.len text.buf (omega (arith, tl))
        (omega (arith, hl, tl)) (omega (arith, hl, tl, hb, tb)) in
    (
      _,
      ap (Option.map _) got,
      bytes_of-line (λ n. n % 2 ^ 32) size (suc tlen) hex.events (space ∷ space ∷ text.events ++ es)
          ∙ ap (λ bs. bytes_of hex.events ++ bs)
              (bytes_of-append text.events es ∙ ap₂ ◌++◌ no_bytes rest_bytes)
          ∙ bytes,
      characters_of-line (λ n. n % 2 ^ 32) size (suc tlen) hex.events
            (space ∷ space ∷ text.events ++ es)
          ∙ ap₂ ◌++◌ no_text (
              characters_of-append text.events es
              ∙ ap (λ cs. characters_of text.events ++ cs) rest_chars
              ∙ chars),
    )

-- hexdump and fhexdump of every block end, and the bytes each prints are those of the block in
-- order, as are the characters, with a dot for each byte but those from 0x21 to 0x7d.
pub hexdump_lem :
    (f : ℕ) (m : Memory) (p size : ℕ) (fmt : Option (List ℕ))
    → (es fs : List Event) × (hexdump m p size fmt ≡ some es)
      × (fhexdump f m p size fmt ≡ (f, some fs))
      × ((bytes_of es ≡ bytes_at m p size) × (characters_of es ≡ visible_at m p size))
      × ((bytes_of fs ≡ bytes_at m p size) × (characters_of fs ≡ visible_at m p size))
unfolding hexdump fhexdump
hexdump_lem f m p size fmt =
    let (es, got, bytes, chars) =
      hexdump_loop_shows m size size size p size p (omega arith) refl refl in
    (
      _,
      _,
      ap (Option.map _) got,
      ap (λ o. (f, o)) (ap (Option.map _) got),
      (
        bytes_of-caption fmt _ ∙ bytes_of-end es ∙ bytes,
        characters_of-caption fmt _ ∙ characters_of-end es ∙ chars,
      ),
      (
        bytes_of-caption fmt _ ∙ bytes_of-end es ∙ bytes,
        characters_of-caption fmt _ ∙ characters_of-end es ∙ chars,
      ),
    )

-- dump, fdump, hexdump and fhexdump of every block end, dump and fdump print the same, the
-- bytes that each of the four prints are those of the block in order, and so are the
-- characters that hexdump and fhexdump print, with a dot for each byte but those from 0x21 to
-- 0x7d, so for a space and for a tilde too.
pub dumps_lem :
    (f : ℕ) (m : Memory) (p size : ℕ) (fmt : Option (List ℕ))
    → ((es : List Event) × (dump m p size fmt ≡ some es)
        × (fdump f m p size fmt ≡ (f, some es))
        × (bytes_of es ≡ bytes_at m p size))
      × ((es fs : List Event) × (hexdump m p size fmt ≡ some es)
          × (fhexdump f m p size fmt ≡ (f, some fs))
          × ((bytes_of es ≡ bytes_at m p size) × (characters_of es ≡ visible_at m p size))
          × ((bytes_of fs ≡ bytes_at m p size) × (characters_of fs ≡ visible_at m p size)))
dumps_lem f m p size fmt = (dump_lem f m p size fmt, hexdump_lem f m p size fmt)
