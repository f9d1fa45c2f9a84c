-- ===== src/Initcalls.antt =====
-- posix/module/module.c and module.h: functions that modules register to be called at the start
-- and at the end of a program.
pub mod Order
pub mod Program
mod Tests
use ohmylib.Prelude.{ℕ, Bool, true, false, List, [], ◌∷◌, ◌++◌, if◌then◌else◌}

-- The levels that are compiled in: 1, 6 and 7.
pub data Level : Type 0 where
  core user late : Level

abbrev pub id_of : Level → ℕ
id_of core = 1
id_of user = 6
id_of late = 7

-- A function pointer that core_initcall, user_initcall or late_initcall puts into a section.
pub record Initcall : Type 0 where
  pub level : Level
  pub fn : ℕ

abbrev pub same_level : Level → Level → Bool
same_level core core = true
same_level user user = true
same_level late late = true
same_level a b = false

-- What stands between the labels that the linker makes for a section, in the order of linking.
unfoldable pub section : Level → List Initcall → List Initcall
section l [] = []
section l (e ∷ es) = if same_level e.level l then e ∷ section l es else section l es

abbrev pub initcall_levels : List Initcall → List (List Initcall)
initcall_levels linked = section core linked ∷ section user linked ∷ section late linked ∷ []

-- The functions that are called, in order; what one returns is not looked at.
unfoldable pub do_initcall_level : List Initcall → List Initcall
do_initcall_level [] = []
do_initcall_level (fn ∷ fns) = fn ∷ do_initcall_level fns

unfoldable pub level_loop : List (List Initcall) → List Initcall
level_loop [] = []
level_loop (l ∷ ls) = do_initcall_level l ++ level_loop ls

unfoldable pub do_initcalls : List Initcall → List Initcall
unfolding level_loop do_initcall_level section
do_initcalls linked = level_loop (initcall_levels linked)

-- The only section of exit functions.
unfoldable pub do_exitcalls : List ℕ → List ℕ
do_exitcalls [] = []
do_exitcalls (fn ∷ fns) = fn ∷ do_exitcalls fns
