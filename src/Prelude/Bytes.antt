-- ===== src/Prelude/Bytes.antt =====
-- Byte-addressed memory: a function from addresses to bytes, `memcpy`, and the bytes of a block.
use Prim.Native.Nat.{ℕ, zero, suc, ◌+◌, ◌-◌, ◌≤◌, ◌<◌}
use mathlib.Core.Path.{◌≡◌, refl, ap₂}
use mathlib.Core.Logic.{◌⊎◌}
use mathlib.Core.Bool.{◌&&◌}
use mathlib.Core.List.{List, [], ◌∷◌}
use native.Mathlib.Omega.{arith}
use ohmylib.Prelude.Tests.{ltb, leb, if◌then◌else◌}

abbrev pub Memory : Type 0
Memory = ℕ → ℕ

-- `memcpy(dst, src, n)`. The source is read before anything is written.
abbrev pub memcpy : ℕ → ℕ → ℕ → Memory → Memory
memcpy dst src n m a = if leb dst a && ltb a (dst + n) then m (src + (a - dst)) else m a

-- The `n` bytes from address `p` on.
abbrev pub read_bytes : Memory → ℕ → ℕ → List ℕ
read_bytes m p zero = []
read_bytes m p (suc n) = m p ∷ read_bytes m (p + 1) n

pub read_bytes_ext :
    (m m' : Memory) (p q n : ℕ)
    → ((i : ℕ) → i < n → m (p + i) ≡ m' (q + i))
    → read_bytes m p n ≡ read_bytes m' q n
read_bytes_ext m m' p q zero h = refl
read_bytes_ext m m' p q (suc n) h =
    ap₂ ◌∷◌ (grind (arith, h 0))
      (read_bytes_ext m m' (p + 1) (q + 1) n (λ i lt. ground (arith, h (suc i))))

-- Two blocks with no address in common.
abbrev pub Disjoint : ℕ → ℕ → ℕ → ℕ → Type 0
Disjoint p n q k = (p + n ≤ q) ⊎ (q + k ≤ p)

pub read_bytes-memcpy_self :
    (m : Memory) (dst src n : ℕ) → read_bytes (memcpy dst src n m) dst n ≡ read_bytes m src n
read_bytes-memcpy_self m dst src n = read_bytes_ext _ m dst src n (λ i lt. ground arith)

pub read_bytes-memcpy-Disjoint :
    (m : Memory) (dst src n p k : ℕ)
    → Disjoint dst n p k
    → read_bytes (memcpy dst src n m) p k ≡ read_bytes m p k
read_bytes-memcpy-Disjoint m dst src n p k d = read_bytes_ext _ m p p k (λ i lt. ground arith)
