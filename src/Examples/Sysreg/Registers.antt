-- ===== src/Examples/Sysreg/Registers.antt =====
-- What the program does to the registers, and what its last line says.
use ohmylib.Prelude.{
  ℕ, ◌%◌, ◌^◌, ◌≡◌, ◌≢◌, ◌⊎◌, refl, sym, ap, arith, ◌==◌, ==_iff, ◌++◌, Bool-cases, false, inl, inr,
  none, some, List, [], ◌∷◌, append_assoc, append-nil,
}
use ohmylib.Prelude.Int.{ℤ, pos, negsuc, pos_part, ltb_ℤ}
use ohmylib.Sysreg.{
  Info, Files, Use, Scratch, retval, sysreg_read_info, sysreg_read_scratch, sysreg_write_scratch,
}
use ohmylib.Sysreg.Reading.{AllClosed, Closes-append, all_close}
use ohmylib.Examples.Sysreg.{
  Line, failed, scratch_of, usage, shown, Ran, strtoul, after_write, main,
}

abbrev pub EndsBy : Line → List Line → Type 0
EndsBy l lines = (before : List Line) × (lines ≡ before ++ (l ∷ []))

abbrev pub Extends : List Use → List Use → Type 0
Extends uses all = (rest : List Use) × (all ≡ uses ++ rest)

-- It closes what it opens; it returns 0 after a line with what was read, which is the word of the
-- register where all four bytes were read, and -1 after an error.
abbrev pub EndsWell : Scratch → List Use → Ran → Type 0
EndsWell reads before r =
    AllClosed r.uses
    × Extends before r.uses
    × (((r.ret ≡ pos 0)
          × ((v : ℕ) × EndsBy (scratch_of v) r.lines
              × (v ≡ retval (pos_part reads.io_ret) reads)
              × ((reads.io_ret ≢ pos 4) ⊎ (v ≡ reads.word % 2 ^ 32))))
        ⊎ ((r.ret ≡ negsuc 0) × EndsBy failed r.lines))

read_whole : (ret : ℤ) (s : Scratch) → (ret ≢ pos 4) ⊎ (retval (pos_part ret) s ≡ s.word % 2 ^ 32)
read_whole (negsuc k) s = inl (λ e. cc e)
read_whole (pos n) s = elim (Bool-cases (n == 4)) [
  | inl e ↦ inr (rw ((==_iff n 4).0 e) (omega arith))
  | inr e ↦ inl (λ p. let four : n ≡ 4 = ap pos_part p in ground arith)
]

module _ (fs : Files) (reads : Scratch) (i : Info) where
  reads_word :
      (val : ℕ)
      → ltb_ℤ ((sysreg_read_scratch reads (some val)).0) (pos 0) ≡ false
      → (sysreg_read_scratch reads (some val)).1 ≡ some (retval (pos_part reads.io_ret) reads)
  unfolding sysreg_read_scratch
  reads_word val h = elim (Bool-cases (ltb_ℤ reads.open_ret (pos 0))) [
    | inl e ↦ absurd (cc (rw e at h))
    | inr e ↦ elim (Bool-cases (ltb_ℤ reads.io_ret (pos 0))) [
      | inl f ↦ absurd (cc (rw (e, f) at h))
      | inr f ↦ rw (e, f) refl
    ]
  ]

  after_write-EndsWell :
      (val : ℕ) (lines : List Line) (uses : List Use)
      → AllClosed uses
      → EndsWell reads uses (after_write fs reads i val lines uses)
  unfolding after_write
  after_write-EndsWell val lines uses h =
      let (info_closed, scratch_closed, _) = all_close fs i reads (some val) 0 in
      let read = sysreg_read_info fs i in
      let used = (sysreg_read_scratch reads (some val)).2 in
      let printed = lines ++ (shown read.info ∷ []) in
      let closed_both = Closes-append none read.uses used info_closed scratch_closed in
      elim (Bool-cases (ltb_ℤ ((sysreg_read_info fs i).ret) (pos 0))) [
        | inl e ↦
            rw e (
              Closes-append none uses read.uses h info_closed,
              (_, refl),
              inr (refl, (lines, refl)),
            )
        | inr e ↦ elim (Bool-cases (ltb_ℤ ((sysreg_read_scratch reads (some val)).0) (pos 0))) [
          | inl f ↦
              rw (e, f)
                (
                  Closes-append none uses (read.uses ++ used) h closed_both,
                  (_, refl),
                  inr (
                    refl,
                    (printed, sym (append_assoc lines (shown read.info ∷ []) (failed ∷ []))),
                  ),
                )
          | inr f ↦
              rw (e, f, reads_word val f)
                (
                  Closes-append none uses (read.uses ++ used) h closed_both,
                  (_, refl),
                  inl (
                    refl,
                    (
                      retval (pos_part reads.io_ret) reads,
                      (
                        printed,
                        sym (
                            append_assoc lines (shown read.info ∷ [])
                              (scratch_of (retval (pos_part reads.io_ret) reads) ∷ [])),
                      ),
                      refl,
                      read_whole reads.io_ret reads,
                    ),
                  ),
                )
        ]
      ]

-- Whatever the files hold and the calls return, main closes each file before it opens another
-- and before it ends; where there is an argument, what it does first is the write of the
-- argument's number modulo 2 ^ 32; and it returns 0 after a line with a number, or -1 after
-- the line of an error; the number is what the register holds modulo 2 ^ 32 where read returns
-- 4, and where it returns fewer, has in its other bytes what was on the stack.
pub sysreg_main_lem :
    (fs : Files) (arg : List ℕ) (writes_to reads : Scratch) (i : Info) (val : ℕ)
    → EndsWell reads
        (sysreg_write_scratch writes_to (strtoul arg % 2 ^ 32)).1
        (main (some arg) fs writes_to reads i val)
      × EndsWell reads [] (main none fs writes_to reads i val)
unfolding main
sysreg_main_lem fs arg writes_to reads i val =
    let given = strtoul arg % 2 ^ 32 in
    let (_, _, write_closed) = all_close fs i writes_to none given in
    (
      elim (Bool-cases (ltb_ℤ ((sysreg_write_scratch writes_to given).0) (pos 0))) [
        | inl e ↦ rw e (write_closed, ([], sym (append-nil _)), inr (refl, ([], refl)))
        | inr e ↦ rw e (after_write-EndsWell fs reads i given [] _ write_closed)
      ],
      after_write-EndsWell fs reads i val (usage ∷ []) [] tt,
    )
