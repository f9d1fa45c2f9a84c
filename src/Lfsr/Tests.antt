-- ===== src/Lfsr/Tests.antt =====
-- The register with the polynomial and the start value that includes/lfsr.h names.
use ohmylib.Prelude.{◌≡◌, refl, arith, [], ◌∷◌, Memory, read_bytes}
use ohmylib.Prelude.{inr}
use ohmylib.Lfsr.{lfsr_step, lfsr}
use ohmylib.Lfsr.Laws.{low_bytes, lfsr_lem, unstep, unstep-step}

abbrev blank : Memory
blank a = 0

first_states : low_bytes 0x8016 3 0xffff ≡ 0xff ∷ 0xe9 ∷ 0xe2 ∷ []
unfolding lfsr_step
first_states = refl

lfsr_example :
    let (n, m) = lfsr 100 3 0xffff 0x8016 blank in
    (n ≡ 3) × (read_bytes m 100 3 ≡ low_bytes 0x8016 3 0xffff) × (m 103 ≡ 0)
lfsr_example = lfsr_lem 100 3 0xffff 0x8016 blank 103 (omega arith) (inr (omega arith))

unstep-step_example : unstep 0x8016 (lfsr_step 0x8016 0xffff) ≡ 0xffff
unstep-step_example = unstep-step 0x8016 (omega arith) (omega arith) 0xffff (omega arith)
