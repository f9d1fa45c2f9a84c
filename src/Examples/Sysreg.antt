-- ===== src/Examples/Sysreg.antt =====
-- examples/sysreg/sysreg.c: it writes a number to the scratch register, and prints what the
-- registers hold, over the model of sysreg.
pub mod Registers
mod Tests
use ohmylib.Prelude.{
  ℕ, ◌+◌, ◌-◌, ◌*◌, ◌%◌, ◌^◌, Bool, Option, none, some, List, [], ◌∷◌, ◌++◌, ◌==◌, ◌&&◌, ◌||◌, ltb,
  leb, if◌then◌else◌,
}
use ohmylib.Prelude.Words.{word}
use ohmylib.Prelude.Int.{ℤ, pos, negsuc, ltb_ℤ}
use ohmylib.Sysreg.{
  Datetime, Info, Files, Use, Scratch, sysreg_read_info, sysreg_read_scratch, sysreg_write_scratch,
  datetime_of_raw,
}

-- The value of a digit, at most 36.
abbrev pub digit : ℕ → ℕ
digit c =
    if leb 48 c && leb c 57
    then c - 48
    else if leb 97 c && leb c 122
    then c - 87
    else if leb 65 c && leb c 90
    then c - 55
    else 36

unfoldable pub digits_loop : ℕ → ℕ → List ℕ → ℕ
digits_loop base n [] = n
digits_loop base n (c ∷ cs) =
    let rest = digits_loop base (base * n + digit c) cs in if ltb (digit c) base then rest else n

-- A number with `0x` or `0X` in front is hexadecimal, and one with a 0 octal.
unfoldable pub unsigned_of : List ℕ → ℕ
unfolding digits_loop
unsigned_of (z ∷ x ∷ d ∷ cs) =
    if (z == 48) && ((x == 120) || (x == 88)) && ltb (digit d) 16
    then digits_loop 16 0 (d ∷ cs)
    else digits_loop (if z == 48 then 8 else 10) 0 (z ∷ x ∷ d ∷ cs)
unsigned_of (z ∷ x ∷ []) = digits_loop (if z == 48 then 8 else 10) 0 (z ∷ x ∷ [])
unsigned_of (z ∷ []) = digits_loop 10 0 (z ∷ [])
unsigned_of [] = 0

abbrev saturated : ℕ → ℕ
saturated n = if ltb n (2 ^ 64) then n else 2 ^ 64 - 1

abbrev is_space : ℕ → Bool
is_space c = (c == 32) || (leb 9 c && leb c 13)

-- `strtoul(t, NULL, 0)`: white space, a sign and a number, of 64 bits.
unfoldable pub strtoul : List ℕ → ℕ
unfolding unsigned_of
strtoul [] = 0
strtoul (c ∷ cs) =
    let rest = strtoul cs in
    if is_space c
    then rest
    else if c == 45
    then if ltb (unsigned_of cs) (2 ^ 64) then (2 ^ 64 - unsigned_of cs) % 2 ^ 64 else 2 ^ 64 - 1
    else if c == 43
    then saturated (unsigned_of cs)
    else saturated (unsigned_of (c ∷ cs))

-- What is printed: the usage, the information with its date, the scratch word, or an error.
pub data Line : Type 0 where
  usage failed : Line
  info_of : List ℕ → List ℕ → ℕ → Datetime → Line
  scratch_of : ℕ → Line

pub record Ran : Type 0 where
  pub ret : ℤ
  pub lines : List Line
  pub uses : List Use

abbrev pub shown : Info → Line
shown i = info_of i.project i.board (word i.version) (datetime_of_raw (word i.datetime))

-- What follows the write: `i` is the struct and `val` the variable before.
unfoldable pub after_write : Files → Scratch → Info → ℕ → List Line → List Use → Ran
unfolding sysreg_read_info sysreg_read_scratch
after_write fs reads i val lines uses =
    let read = sysreg_read_info fs i in
    let (ret, got, used) = sysreg_read_scratch reads (some val) in
    if ltb_ℤ read.ret (pos 0)
    then record { ret = negsuc 0; lines = lines ++ (failed ∷ []); uses = uses ++ read.uses }
    else if ltb_ℤ ret (pos 0)
    then record {
      ret = negsuc 0;
      lines = lines ++ (shown read.info ∷ failed ∷ []);
      uses = uses ++ (read.uses ++ used);
    }
    else record {
      ret = pos 0;
      lines = lines ++ (shown read.info ∷ scratch_of (elim got [ none ↦ val | some w ↦ w ]) ∷ []);
      uses = uses ++ (read.uses ++ used);
    }

-- `arg` is the first argument.
unfoldable pub main : Option (List ℕ) → Files → Scratch → Scratch → Info → ℕ → Ran
unfolding after_write strtoul sysreg_write_scratch
main none fs writes reads i val = after_write fs reads i val (usage ∷ []) []
main (some arg) fs writes reads i val =
    let given = strtoul arg % 2 ^ 32 in
    let (ret, used) = sysreg_write_scratch writes given in
    if ltb_ℤ ret (pos 0)
    then record { ret = negsuc 0; lines = failed ∷ []; uses = used }
    else after_write fs reads i given [] used
