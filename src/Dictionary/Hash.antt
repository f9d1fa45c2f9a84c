-- ===== src/Dictionary/Hash.antt =====
-- dictionary_hash: a one-at-a-time hash in `unsigned` arithmetic.
use ohmylib.Prelude.{ℕ, ◌+◌, ◌-◌, ◌*◌, ◌/◌, ◌%◌, ◌^◌, bit_xor, [], ◌∷◌, Option, none, some}
use ohmylib.Prelude.{ltb, if◌then◌else◌}
use ohmylib.Dictionary.Text.{Text}

abbrev u32 : ℕ → ℕ
u32 n = n % 2 ^ 32

-- `(unsigned)c` of a byte: `char` is signed where the library is built, on x86.
unfoldable pub char_to_unsigned : ℕ → ℕ
char_to_unsigned c = if ltb c 128 then c else c + 2 ^ 32 - 256

-- `hash += x << k`, `hash ^= hash >> k`
abbrev pub add_shifted : ℕ → ℕ → ℕ
add_shifted h k = u32 (h + u32 (h * 2 ^ k))

abbrev pub xor_shifted : ℕ → ℕ → ℕ
xor_shifted h k = bit_xor h (h / 2 ^ k)

unfoldable pub hash_char : ℕ → ℕ → ℕ
unfolding char_to_unsigned
hash_char h c = xor_shifted (add_shifted (u32 (h + char_to_unsigned c)) 10) 6

unfoldable pub hash_loop : ℕ → Text → ℕ
hash_loop h [] = h
hash_loop h (c ∷ cs) = hash_loop (hash_char h c) cs

unfoldable pub dictionary_hash : Option Text → ℕ
unfolding hash_loop hash_char
dictionary_hash none = 0
dictionary_hash (some key) = add_shifted (xor_shifted (add_shifted (hash_loop 0 key) 3) 11) 15
