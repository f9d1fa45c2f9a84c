-- ===== src/Sysreg/Reading.antt =====
-- What sysreg_read_info and the scratch register's functions do over the outcomes of the calls.
use ohmylib.Prelude.{
  ℕ, ◌≡◌, refl, Bool-cases, Option-cases, inl, inr, Option, none, some, List, [], ◌∷◌, ◌++◌,
}
use ohmylib.Prelude.Int.{pos, ltb_ℤ}
use ohmylib.Sysreg.{
  Info, File, Files, project_file, board_file, version_file, timedate_file, Use, opened, closed,
  writes, read_board, read_version, read_timedate, sysreg_read_info, Scratch, sysreg_read_scratch,
  sysreg_write_scratch,
}

-- Each stream that is opened is closed before another is opened, from a point where `open` is.
abbrev pub Closes : Option File → List Use → Type 0
Closes none [] = Unit
Closes none (opened f ∷ us) = Closes (some f) us
Closes none (closed f ∷ us) = ⊥
Closes none (writes v ∷ us) = ⊥
Closes (some f) [] = ⊥
Closes (some f) (opened g ∷ us) = ⊥
Closes (some f) (closed g ∷ us) = (f ≡ g) × Closes none us
Closes (some f) (writes v ∷ us) = Closes (some f) us

abbrev pub AllClosed : List Use → Type 0
AllClosed us = Closes none us

pub Closes-append :
    (at : Option File) (us vs : List Use) → Closes at us → AllClosed vs → Closes at (us ++ vs)
Closes-append none [] vs h k = k
Closes-append none (opened f ∷ us) vs h k = Closes-append (some f) us vs h k
Closes-append none (closed f ∷ us) vs h k = absurd h
Closes-append none (writes v ∷ us) vs h k = absurd h
Closes-append (some f) [] vs h k = absurd h
Closes-append (some f) (opened g ∷ us) vs h k = absurd h
Closes-append (some f) (closed g ∷ us) vs (e, h) k = (e, Closes-append none us vs h k)
Closes-append (some f) (writes v ∷ us) vs h k = Closes-append (some f) us vs h k

AllClosed-append :
    (us : List Use) (f : File) → AllClosed us → AllClosed (us ++ (opened f ∷ closed f ∷ []))
AllClosed-append us f h = Closes-append none us (opened f ∷ closed f ∷ []) h (refl, tt)

module _ (fs : Files) where
  read_timedate-AllClosed :
      (i : Info) (us : List Use) → AllClosed us → AllClosed (read_timedate fs i us).uses
  read_timedate-AllClosed i us h = elim (Option-cases (fs timedate_file)) [
    | inl e ↦ rw (e, AllClosed, read_timedate) h
    | inr (c, e) ↦ rw (e, AllClosed, read_timedate) (AllClosed-append us timedate_file h)
  ]

  read_version-AllClosed :
      (i : Info) (us : List Use) → AllClosed us → AllClosed (read_version fs i us).uses
  read_version-AllClosed i us h = elim (Option-cases (fs version_file)) [
    | inl e ↦ rw (e, AllClosed, read_version) h
    | inr (c, e) ↦
        rw (e, AllClosed, read_version)
          (read_timedate-AllClosed _ _ (AllClosed-append us version_file h))
  ]

  read_board-AllClosed :
      (i : Info) (us : List Use) → AllClosed us → AllClosed (read_board fs i us).uses
  read_board-AllClosed i us h = elim (Option-cases (fs board_file)) [
    | inl e ↦ rw (e, AllClosed, read_board) h
    | inr (c, e) ↦
        rw (e, AllClosed, read_board)
          (read_version-AllClosed _ _ (AllClosed-append us board_file h))
  ]

  sysreg_read_info-AllClosed : (i : Info) → AllClosed (sysreg_read_info fs i).uses
  unfolding sysreg_read_info
  sysreg_read_info-AllClosed i = elim (Option-cases (fs project_file)) [
    | inl e ↦ rw (e, AllClosed, sysreg_read_info) tt
    | inr (c, e) ↦ rw (e, AllClosed, sysreg_read_info) (read_board-AllClosed _ _ (refl, tt))
  ]

scratch-AllClosed :
    (s : Scratch) (val : Option ℕ) (word : ℕ)
    → AllClosed (sysreg_read_scratch s val).2 × AllClosed (sysreg_write_scratch s word).1
unfolding sysreg_read_scratch sysreg_write_scratch
scratch-AllClosed s val word = elim (Bool-cases (ltb_ℤ s.open_ret (pos 0))) [
  | inl e ↦ rw e (tt, tt)
  | inr e ↦ elim (Bool-cases (ltb_ℤ s.io_ret (pos 0))) [
    | inl f ↦ rw (e, f) ((refl, tt), (refl, tt))
    | inr f ↦ rw (e, f) ((refl, tt), (refl, tt))
  ]
]

-- sysreg_read_info, sysreg_read_scratch and sysreg_write_scratch close each file that they
-- open, and close it before they open another, whatever the files hold and the calls return.
pub all_close :
    (fs : Files) (i : Info) (s : Scratch) (val : Option ℕ) (word : ℕ)
    → AllClosed (sysreg_read_info fs i).uses
      × AllClosed (sysreg_read_scratch s val).2
      × AllClosed (sysreg_write_scratch s word).1
all_close fs i s val word =
    let (read, write) = scratch-AllClosed s val word in
    (sysreg_read_info-AllClosed fs i, read, write)
