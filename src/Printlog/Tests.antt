-- ===== src/Printlog/Tests.antt =====
-- Dumps of two bytes, and of a block whose size is not a multiple of sixteen.
use ohmylib.Prelude.{
  ℕ, ◌+◌, ◌-◌, ◌==◌, if◌then◌else◌, ◌%◌, ◌≡◌, ◌⊎◌, refl, none, some, List, [], ◌∷◌, Memory,
}
use ohmylib.Printlog.{Event, reads, byte, dump_row, dump, fdump, hexdump, fhexdump}
use ohmylib.Printlog.Pieces.{bytes_of, characters_of, bytes_at}
use ohmylib.Printlog.Shown.{dumps_lem}
use ohmylib.Printlog.Reads.{addresses_of, AllWithin, IsAmong, dump_reads}

-- "A", and then bytes that grow from 67 on.
abbrev block : Memory
block a = if a == 100 then 65 else 67 + (a - 101)

two_bytes : bytes_at block 100 2 ≡ 65 ∷ 67 ∷ []
two_bytes = refl

row_of_one : (dump_row block 2 1 100).events ≡ reads 100 ∷ byte 65 ∷ reads 101 ∷ []
unfolding dump_row
row_of_one = refl

abbrev two : ℕ
two = 2

dump_reads_example :
    (es : List Event) × (dump block 100 2 none ≡ some es)
    × AllWithin 100 102 (addresses_of es)
    × ((two % 16 ≡ 0) ⊎ IsAmong 102 (addresses_of es))
dump_reads_example = dump_reads block 100 two none

dumps_example :
    ((es : List Event) × (dump block 100 2 none ≡ some es)
      × (fdump 1 block 100 2 none ≡ (1, some es))
      × (bytes_of es ≡ 65 ∷ 67 ∷ []))
    × ((es fs : List Event) × (hexdump block 100 2 none ≡ some es)
        × (fhexdump 1 block 100 2 none ≡ (1, some fs))
        × ((bytes_of es ≡ 65 ∷ 67 ∷ []) × (characters_of es ≡ 65 ∷ 67 ∷ []))
        × ((bytes_of fs ≡ 65 ∷ 67 ∷ []) × (characters_of fs ≡ 65 ∷ 67 ∷ [])))
dumps_example = dumps_lem 1 block 100 2 none
