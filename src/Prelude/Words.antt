-- ===== src/Prelude/Words.antt =====
-- Words in memory, with the lowest byte first.
use Prim.Native.Nat.{ℕ, zero, suc, ◌+◌, ◌-◌, ◌*◌, ◌/◌, ◌%◌, ◌^◌, ◌≤◌, ◌<◌}
use mathlib.Core.Path.{◌≡◌, ap}
use mathlib.Core.Logic.{◌⊎◌}
use mathlib.Core.Bool.{◌&&◌}
use mathlib.Core.List.{List, [], ◌∷◌}
use native.Mathlib.Omega.{arith}
use ohmylib.Prelude.Tests.{ltb, leb, if◌then◌else◌}
use ohmylib.Prelude.Bytes.{Memory, read_bytes, read_bytes_ext}

-- The `n` lowest bytes of a word, and the word that bytes make up.
abbrev pub bytes : ℕ → ℕ → List ℕ
bytes zero v = []
bytes (suc n) v = v % 256 ∷ bytes n (v / 256)

abbrev pub word : List ℕ → ℕ
word [] = 0
word (b ∷ bs) = b + 256 * word bs

abbrev byte : ℕ → ℕ → ℕ
byte zero v = v % 256
byte (suc k) v = byte k (v / 256)

-- `*p = v`, for a pointer of 8 bytes.
abbrev pub store_pointer : ℕ → ℕ → Memory → Memory
store_pointer p v m a = if leb p a && ltb a (p + 8) then byte (a - p) v else m a

abbrev pub load_pointer : ℕ → Memory → ℕ
load_pointer p m = word (read_bytes m p 8)

pub word-bytes : (n v : ℕ) → v < 256 ^ n → word (bytes n v) ≡ v
word-bytes zero v h = omega arith
word-bytes (suc n) v h = omega (arith, word-bytes n (v / 256) (omega arith))

pub read_bytes-store_pointer :
    (p v : ℕ) (m : Memory) → read_bytes (store_pointer p v m) p 8 ≡ bytes 8 v
read_bytes-store_pointer p v m =
    read_bytes_ext (store_pointer p v m) (λ a. byte a v) p 0 8 (λ i lt. inside i lt)
  where
    inside : (i : ℕ) → i < 8 → store_pointer p v m (p + i) ≡ byte (0 + i) v
    inside i lt = let at : p + i - p ≡ 0 + i = omega arith in ground (arith, ap (λ k. byte k v) at)

pub store_pointer_outside :
    (p v a : ℕ) (m : Memory) → (a < p) ⊎ (p + 8 ≤ a) → store_pointer p v m a ≡ m a
store_pointer_outside p v a m h = ground arith
