-- ===== src/Pipe.antt =====
-- posix/pipe/source.c, which writes numbered bytes to stdout, and posix/pipe/sink.c, which reads
-- stdin in pieces. The stream is the list of its bytes up to its end.
pub mod Pieces
mod Tests
use ohmylib.Prelude.{
  ℕ, zero, suc, ◌+◌, ◌-◌, Bool, Option, none, some, List, [], ◌∷◌, ◌==◌, take, drop, bit_and,
  if◌then◌else◌,
}
use ohmylib.Prelude.Int.{ℤ, pos, negsuc}
use mathlib.Core.Option

abbrev pub send_cnt : ℕ
send_cnt = 0x100

-- `for(size_t i = 0; i < SEND_CNT; i++) buf[i] = i & 0xff;`, with the rounds left.
unfoldable pub number_loop : ℕ → ℕ → List ℕ
number_loop zero i = []
number_loop (suc left) i = bit_and i 0xff ∷ number_loop left (i + 1)

-- What main of the source returns and writes.
unfoldable pub source_main : Bool → ℤ × List ℕ
unfolding number_loop
source_main malloc_ok = if malloc_ok then (pos 0, number_loop send_cnt 0) else (negsuc 0, [])

abbrev pub buf_sz : ℕ
buf_sz = 8

-- The text in a buffer that ends by a 0, as `%s` prints it.
unfoldable pub c_string : List ℕ → List ℕ
c_string [] = []
c_string (b ∷ bs) = let rest = c_string bs in if b == 0 then [] else b ∷ rest

-- The pieces that are printed and `count`, with rounds that may run out.
unfoldable pub sink_loop : ℕ → List ℕ → ℕ → Option (List (List ℕ) × ℕ)
unfolding c_string
sink_loop zero stdin count = none
sink_loop (suc rounds) [] count = some ([], count)
sink_loop (suc rounds) (b ∷ bs) count =
    let buf = take (buf_sz - 1) (b ∷ bs) in
    Option.map (λ r. (c_string buf ∷ r.0, r.1))
      (sink_loop rounds (drop (buf_sz - 1) (b ∷ bs)) (count + 1))

-- The pieces, and the two numbers of the last line.
unfoldable pub sink_main : ℕ → List ℕ → Option (List (List ℕ) × ℕ × ℕ)
unfolding sink_loop
sink_main rounds stdin = Option.map (λ r. (r.0, r.1, buf_sz - 1)) (sink_loop rounds stdin 0)
