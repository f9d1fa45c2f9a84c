-- ===== src/Sysreg.antt =====
-- lib/sysreg.c and includes/sysreg.h: the registers that the kernel shows as files.
pub mod Reading
pub mod Fields
mod Tests
use ohmylib.Prelude.{
  ℕ, zero, suc, ◌+◌, ◌*◌, ◌/◌, ◌%◌, ◌^◌, Bool, true, false, Option, none, some, List, [], ◌∷◌, ◌++◌,
  Memory, take, drop, length, if◌then◌else◌, ltb,
}
use ohmylib.Prelude.Words.{word, bytes}
use ohmylib.Prelude.Int.{ℤ, pos, negsuc, pos_part, ltb_ℤ}

-- struct sysreg_datetime_s, by its bit fields.
pub record Datetime : Type 0 where
  pub day : ℕ
  pub month : ℕ
  pub year : ℕ
  pub hour : ℕ
  pub minute : ℕ
  pub second : ℕ

-- The view of `raw` through the bit fields, which start at the lowest bit, as gcc lays them out
-- on x86.
unfoldable pub datetime_of_raw : ℕ → Datetime
datetime_of_raw raw = record {
  day = raw % 32;
  month = raw / 32 % 16;
  year = raw / 512 % 64;
  hour = raw / 32768 % 32;
  minute = raw / 1048576 % 64;
  second = raw / 67108864 % 64;
}

unfoldable pub raw_of_datetime : Datetime → ℕ
raw_of_datetime d =
    d.day + d.month * 32 + d.year * 512 + d.hour * 32768 + d.minute * 1048576 + d.second * 67108864

-- struct sysreg_info_s as its bytes: two texts of four characters, and two words.
pub record Info : Type 0 where
  pub project : List ℕ
  pub board : List ℕ
  pub version : List ℕ
  pub datetime : List ℕ

pub data File : Type 0 where
  project_file board_file version_file timedate_file scratch_file : File

-- A file as fopen and fread find it: it does not open, or it has these bytes.
abbrev pub Files : Type 0
Files = File → Option (List ℕ)

-- The calls that open and close streams and descriptors, and the word that write is given.
pub data Use : Type 0 where
  opened closed : File → Use
  writes : ℕ → Use

-- `fread(dst, 1, n, f)`: the number of bytes, and what `dst` has afterwards.
abbrev pub fread : ℕ → List ℕ → List ℕ → ℕ × List ℕ
fread n content old =
    (length (take n content), take n content ++ drop (length (take n content)) old)

-- What a call returned, the struct afterwards, and the calls that it made.
pub record InfoRead : Type 0 where
  pub ret : ℤ
  pub info : Info
  pub uses : List Use

-- The number of bytes that fread returns is never negative, so `ret < 0` is not taken.
abbrev pub read_timedate : Files → Info → List Use → InfoRead
read_timedate fs i us = elim (fs timedate_file) [
  | none ↦ record { ret = negsuc 0; info = i; uses = us }
  | some c ↦
      let (n, bytes) = fread 4 c i.datetime in
      record {
        ret = pos n;
        info = record i { datetime = bytes };
        uses = us ++ (opened timedate_file ∷ closed timedate_file ∷ []);
      }
]

abbrev pub read_version : Files → Info → List Use → InfoRead
read_version fs i us = elim (fs version_file) [
  | none ↦ record { ret = negsuc 0; info = i; uses = us }
  | some c ↦
      let (n, bytes) = fread 4 c i.version in
      read_timedate fs (record i { version = bytes })
        (us ++ (opened version_file ∷ closed version_file ∷ []))
]

abbrev pub read_board : Files → Info → List Use → InfoRead
read_board fs i us = elim (fs board_file) [
  | none ↦ record { ret = negsuc 0; info = i; uses = us }
  | some c ↦
      let (n, bytes) = fread 4 c i.board in
      read_version fs (record i { board = bytes })
        (us ++ (opened board_file ∷ closed board_file ∷ []))
]

unfoldable pub sysreg_read_info : Files → Info → InfoRead
sysreg_read_info fs i = elim (fs project_file) [
  | none ↦ record { ret = negsuc 0; info = i; uses = [] }
  | some c ↦
      let (n, bytes) = fread 4 c i.project in
      read_board fs (record i { project = bytes }) (opened project_file ∷ closed project_file ∷ [])
]

-- The outcomes of the system calls on the scratch register: what open returns, and read or write;
-- `word` is what the register holds, and `stale` what stands in `retval` before the read.
pub record Scratch : Type 0 where
  pub open_ret : ℤ
  pub io_ret : ℤ
  pub word : ℕ
  pub stale : ℕ

-- `retval` behind a read of `n` bytes, with the lowest byte first: the others are not initialised.
abbrev pub retval : ℕ → Scratch → ℕ
retval n s = word (take n (bytes 4 s.word) ++ drop n (bytes 4 s.stale))

-- What is returned, `*val` afterwards (`none` where it is NULL), and the calls that were made.
unfoldable pub sysreg_read_scratch : Scratch → Option ℕ → ℤ × Option ℕ × List Use
sysreg_read_scratch s val =
    if ltb_ℤ s.open_ret (pos 0)
    then (s.open_ret, val, [])
    else if ltb_ℤ s.io_ret (pos 0)
    then (s.io_ret, val, opened scratch_file ∷ closed scratch_file ∷ [])
    else (
      pos 0,
      elim val [ none ↦ none | some old ↦ some (retval (pos_part s.io_ret) s) ],
      opened scratch_file ∷ closed scratch_file ∷ [],
    )

unfoldable pub sysreg_write_scratch : Scratch → ℕ → ℤ × List Use
sysreg_write_scratch s val =
    if ltb_ℤ s.open_ret (pos 0)
    then (s.open_ret, [])
    else (s.io_ret, opened scratch_file ∷ writes val ∷ closed scratch_file ∷ [])
