-- ===== src/Ctypes/Tests.antt =====
-- The macros at numbers.
use ohmylib.Prelude.{ℕ, ◌+◌, ◌-◌, ◌%◌, ◌^◌, ◌≤◌, ◌<◌, ◌≡◌, ◌⊎◌, some, arith, ltb, if◌then◌else◌}
use ohmylib.Ctypes.{align, clamp, genmask}
use ohmylib.Ctypes.Masks.{bits_from, macros_lem}

macros_example :
    (align 4097 (2 ^ 12) % 2 ^ 12 ≡ 0)
    × (4097 ≤ align 4097 (2 ^ 12))
    × (align 4097 (2 ^ 12) < 4097 + 2 ^ 12)
    × (clamp 70 60 10 ≡ (if ltb 70 10 then 10 else if ltb 60 70 then 60 else 70))
    × ((genmask 7 4 + 2 ^ 4 ≡ 2 ^ (7 + 1))
        × ((◌≡◌ {A = ℕ} 7 31) ⊎ (bits_from 4 (7 + 1 - 4) ≡ some (genmask 7 4))))
macros_example =
    macros_lem 4097 12 70 60 10 7 4 (omega arith) (omega arith) (omega arith) (omega arith)
      (omega arith) (omega arith)
