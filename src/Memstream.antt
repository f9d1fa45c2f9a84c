-- ===== src/Memstream.antt =====
-- posix/memstream/memstream.c: it writes eight bytes to a stream in memory, as often as its
-- argument says, and dumps the stream.
pub mod Dumped
mod Tests
use mathlib.Core.Option
use ohmylib.Prelude.{
  ℕ, zero, suc, ◌-◌, Bool, true, false, not, Option, none, some, List, [], ◌∷◌, ◌++◌, ◌==◌, Memory,
  length, replicate, take, if◌then◌else◌,
}
use ohmylib.Prelude.Int.{ℤ, pos, negsuc, ltb_ℤ, pos_part}
use ohmylib.Prelude.Decimal.{atoi}
use ohmylib.Printlog.{Event, hexdump}

-- `wc`, from the arguments behind the name of the program.
unfoldable pub word_count : List (List ℕ) → ℕ
word_count [] = 1
word_count (arg ∷ args) = let n = atoi arg in if ltb_ℤ n (pos 1) then 1 else pos_part n

-- memset fills eight bytes of `buf`; `behind` is its ninth byte and what stands behind it.
abbrev pub buf : List ℕ → List ℕ
buf behind = replicate 8 0x37 ++ behind

-- The text that `strlen` measures; `none` where no 0 stops it.
unfoldable pub text : List ℕ → Option (List ℕ)
text [] = none
text (b ∷ bs) = let rest = text bs in if b == 0 then some [] else Option.map (λ t. b ∷ t) rest

-- `for(int i = 0; i < wc; i++)`, over what the calls of fwrite return: whether it gets to its
-- end, and what the stream has then. A call that returns less has written so much.
unfoldable pub write_loop : ℕ → List ℕ → List ℕ → List ℕ → Bool × List ℕ
write_loop zero t lens stream = (true, stream)
write_loop (suc left) t [] stream = (false, stream)
write_loop (suc left) t (len ∷ lens) stream =
    let rest = write_loop left t lens (stream ++ t) in
    if len == length t then rest else (false, stream ++ take len t)

-- The block of a stream, at `ptr`.
abbrev pub byte_at : List ℕ → ℕ → ℕ
byte_at [] i = 0
byte_at (b ∷ bs) zero = b
byte_at (b ∷ bs) (suc i) = byte_at bs i

abbrev pub block : ℕ → List ℕ → Memory
block ptr stream a = byte_at stream (a - ptr)

-- "memstream buffer"
abbrev pub title : List ℕ
title =
    109 ∷ 101 ∷ 109 ∷ 115 ∷ 116 ∷ 114 ∷ 101 ∷ 97 ∷ 109 ∷ 32 ∷ 98 ∷ 117 ∷ 102 ∷ 102 ∷ 101 ∷ 114 ∷ []

-- What main returns, what hexdump does, and the blocks that are freed. `none` is a read behind
-- what is known of the stack, or a dump that does not end.
unfoldable pub main : List (List ℕ) → List ℕ → Bool → ℕ → List ℕ → Option (ℤ × List Event × List ℕ)
unfolding word_count text write_loop
main args behind open_ok ptr lens = elim (text (buf behind)) [
  | none ↦ none
  | some t ↦
      let (to_end, stream) = write_loop (word_count args) t lens [] in
      if not open_ok
      then some (negsuc 0, [], [])
      else if to_end
      then Option.map {B = ℤ × List Event × List ℕ} (λ es. (pos 0, es, ptr ∷ []))
          (hexdump (block ptr stream) ptr (length stream) (some title))
      else some (negsuc 0, [], ptr ∷ [])
]
