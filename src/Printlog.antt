-- ===== src/Printlog.antt =====
-- lib/printlog.c: the dumps of a block of memory, as the sequence of what they print and read.
pub mod Pieces
pub mod Shown
pub mod Reads
pub mod Levels
mod Tests
use mathlib.Core.Option
use ohmylib.Prelude.{
  ℕ, zero, suc, ◌+◌, ◌-◌, ◌%◌, ◌^◌, bit_and, Option, none, some, List, [], ◌∷◌, ◌++◌, Memory, ltb,
  ◌==◌, ◌&&◌, if◌then◌else◌,
}

-- One read of the buffer, at an address, or one printed piece. `heading` is "%02x " in the first
-- line, `offset` is "%02x " or "%04x " at the start of a line, `byte` is "%02x ", `blank` three
-- spaces, `space` one, and `character` is "%c".
pub data Event : Type 0 where
  reads : ℕ → Event
  message : List ℕ → Event
  heading offset byte character : ℕ → Event
  blank space newline flush : Event

-- What a row leaves of a buffer, and what it did.
pub record Row : Type 0 where
  pub events : List Event
  pub len : ℕ
  pub buf : ℕ

-- `if(fmt != NULL)`, where `fmt` and its arguments are what vprintf makes of them.
abbrev pub caption : Option (List ℕ) → List Event
caption none = []
caption (some t) = message t ∷ newline ∷ []

-- `for(int i = 0; i < 16; i++)`, with the rounds left.
abbrev pub columns : ℕ → List Event
columns zero = []
columns (suc left) = heading (16 - suc left) ∷ columns left

-- The offset in front of a row, in `digits` of which the number is cut to.
abbrev pub row_offset : (ℕ → ℕ) → ℕ → ℕ → List Event
row_offset cut size len =
    if (size - len) % 0x10 == 0
    then (if size - len == 0 then [] else newline ∷ []) ++ (offset (cut (size - len)) ∷ [])
    else []

-- A row of dump, with the rounds left of sixteen. The byte is read before `len` is tested.
unfoldable pub dump_row : Memory → ℕ → ℕ → ℕ → Row
dump_row m zero len buf = record { events = []; len = len; buf = buf }
dump_row m (suc left) zero buf =
    let rest = dump_row m left zero buf in record rest { events = reads buf ∷ rest.events }
dump_row m (suc left) (suc len) buf =
    let rest = dump_row m left len (buf + 1) in
    record rest { events = reads buf ∷ byte (bit_and (m buf) 0xff) ∷ rest.events }

-- `while(len)`, with rounds that may run out.
unfoldable pub dump_loop : Memory → ℕ → ℕ → ℕ → ℕ → Option (List Event)
dump_loop m size rounds zero buf = some []
dump_loop m size zero (suc len) buf = none
dump_loop m size (suc rounds) (suc len) buf =
    let row = dump_row m 16 (suc len) buf in
    Option.map (λ es. row_offset (λ n. bit_and n 0xff) size (suc len) ++ (row.events ++ es))
      (dump_loop m size rounds row.len row.buf)

unfoldable pub dump : Memory → ℕ → ℕ → Option (List ℕ) → Option (List Event)
dump m p size fmt =
    Option.map
      (λ es. caption fmt ++ (blank ∷ columns 16 ++ (newline ∷ es ++ (newline ∷ flush ∷ []))))
      (dump_loop m size size size p)

-- The same, to the stream that is given.
unfoldable pub fdump : ℕ → Memory → ℕ → ℕ → Option (List ℕ) → ℕ × Option (List Event)
fdump f m p size fmt = (
  f,
  Option.map (λ es. caption fmt ++ (blank ∷ columns 16 ++ (newline ∷ es ++ (newline ∷ flush ∷ []))))
      (dump_loop m size size size p),
)

-- The hexadecimal half of a row of hexdump.
unfoldable pub hex_row : Memory → ℕ → ℕ → ℕ → Row
hex_row m zero hlen hbuf = record { events = []; len = hlen; buf = hbuf }
hex_row m (suc left) zero hbuf =
    let rest = hex_row m left zero hbuf in record rest { events = reads hbuf ∷ blank ∷ rest.events }
hex_row m (suc left) (suc hlen) hbuf =
    let rest = hex_row m left hlen (hbuf + 1) in
    record rest { events = reads hbuf ∷ byte (bit_and (m hbuf) 0xff) ∷ rest.events }

-- `val > 0x20 && val < 0x7e`, and else a dot. A byte from 128 on is a negative `char`.
abbrev pub printable : ℕ → ℕ
printable val = if ltb 0x20 val && ltb val 0x7e then val else 46

abbrev pub half_space : ℕ → ℕ → List Event
half_space size tlen = if (size - tlen) % 0x8 == 0 then space ∷ [] else []

-- The other half, by characters.
unfoldable pub text_row : Memory → ℕ → ℕ → ℕ → ℕ → Row
text_row m size zero tlen cbuf = record { events = []; len = tlen; buf = cbuf }
text_row m size (suc left) zero cbuf =
    let rest = text_row m size left zero cbuf in
    record rest { events = reads cbuf ∷ half_space size zero ++ rest.events }
text_row m size (suc left) (suc tlen) cbuf =
    let rest = text_row m size left tlen (cbuf + 1) in
    record rest {
      events =
          reads cbuf ∷ half_space size (suc tlen) ++ (character (printable (m cbuf)) ∷ rest.events);
    }

-- `while(tlen)`, over both lengths and both pointers.
unfoldable pub hexdump_loop : Memory → ℕ → ℕ → ℕ → ℕ → ℕ → ℕ → Option (List Event)
hexdump_loop m size rounds hlen hbuf zero cbuf = some []
hexdump_loop m size zero hlen hbuf (suc tlen) cbuf = none
hexdump_loop m size (suc rounds) hlen hbuf (suc tlen) cbuf =
    let hex = hex_row m 16 hlen hbuf in
    let text = text_row m size 16 (suc tlen) cbuf in
    Option.map
      (λ es.
        row_offset (λ n. n % 2 ^ 32) size (suc tlen)
        ++ (hex.events ++ (space ∷ space ∷ text.events ++ es)))
      (hexdump_loop m size rounds hex.len hex.buf text.len text.buf)

unfoldable pub hexdump : Memory → ℕ → ℕ → Option (List ℕ) → Option (List Event)
hexdump m p size fmt =
    Option.map
      (λ es.
        caption fmt
        ++ (blank ∷ space ∷ space ∷ columns 16 ++ (newline ∷ es ++ (newline ∷ flush ∷ []))))
      (hexdump_loop m size size size p size p)

-- The same, to the stream that is given, which is flushed after the caption and the heading.
unfoldable pub fhexdump : ℕ → Memory → ℕ → ℕ → Option (List ℕ) → ℕ × Option (List Event)
fhexdump f m p size fmt = (
  f,
  Option.map
      (λ es.
        caption fmt
        ++ (flush ∷ blank ∷ space ∷ space ∷ columns 16
            ++ (newline ∷ flush ∷ es ++ (newline ∷ flush ∷ []))))
      (hexdump_loop m size size size p size p),
)
