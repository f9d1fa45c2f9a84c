-- ===== src/Initcalls/Program.antt =====
-- posix/module/main.c with the modules mod1.c and mod2.c: what the program prints.
use ohmylib.Prelude.{
  ℕ, ◌≡◌, refl, sym, ap, ap₂, ◌∙◌, List, [], ◌∷◌, ◌++◌, append_assoc, append-nil, ◌==◌,
  if◌then◌else◌,
}
use ohmylib.Initcalls.{Initcall, core, user, late, section, do_initcalls, do_exitcalls}
use ohmylib.Initcalls.Order.{in_turn}

-- The object files of the program.
pub data Object : Type 0 where
  main_o mod1_o mod2_o module_o : Object

-- The functions that are registered, as numbers; the dummies print nothing.
abbrev pub dummy_init : ℕ
dummy_init = 0

abbrev pub dummy_exit : ℕ
dummy_exit = 1

abbrev pub mod1_init : ℕ
mod1_init = 2

abbrev pub mod1_exit : ℕ
mod1_exit = 3

abbrev pub mod2_init : ℕ
mod2_init = 4

abbrev pub mod2_exit : ℕ
mod2_exit = 5

-- The entries of an object file in the sections, in order.
unfoldable pub initcalls_of : Object → List Initcall
initcalls_of main_o = []
initcalls_of mod1_o = record { level = user; fn = mod1_init } ∷ []
initcalls_of mod2_o = record { level = user; fn = mod2_init } ∷ []
initcalls_of module_o =
    record { level = core; fn = dummy_init }
    ∷ record { level = user; fn = dummy_init }
    ∷ record { level = late; fn = dummy_init }
    ∷ []

unfoldable pub exitcalls_of : Object → List ℕ
exitcalls_of main_o = []
exitcalls_of mod1_o = mod1_exit ∷ []
exitcalls_of mod2_o = mod2_exit ∷ []
exitcalls_of module_o = dummy_exit ∷ []

pub data Line : Type 0 where
  func_of : ℕ → Line
  do_something : Line

-- The line that a function prints.
unfoldable pub call : ℕ → List Line
call fn = if fn == dummy_init then [] else if fn == dummy_exit then [] else func_of fn ∷ []

abbrev pub each {ℓ ℓ'} : {A : Type ℓ} {B : Type ℓ'} → (A → List B) → List A → List B
each f [] = []
each f (a ∷ ps) = f a ++ each f ps

-- For the object files in the order of linking.
unfoldable pub main : List Object → List Line
unfolding do_initcalls do_exitcalls initcalls_of exitcalls_of call
main objects =
    each (λ e. call e.fn) (do_initcalls (each initcalls_of objects))
    ++ (do_something ∷ each call (do_exitcalls (each exitcalls_of objects)))

-- The lines of the modules alone.
abbrev pub init_line : Object → List Line
init_line main_o = []
init_line mod1_o = func_of mod1_init ∷ []
init_line mod2_o = func_of mod2_init ∷ []
init_line module_o = []

abbrev pub exit_line : Object → List Line
exit_line main_o = []
exit_line mod1_o = func_of mod1_exit ∷ []
exit_line mod2_o = func_of mod2_exit ∷ []
exit_line module_o = []

each-append {ℓ ℓ'} :
    {A : Type ℓ} {B : Type ℓ'} (f : A → List B) (ps bs : List A)
    → each f (ps ++ bs) ≡ each f ps ++ each f bs
each-append f [] bs = refl
each-append f (a ∷ ps) bs =
    ap (λ xs. f a ++ xs) (each-append f ps bs) ∙ sym (append_assoc (f a) _ _)

abbrev lines : List Initcall → List Line
lines es = each (λ e. call e.fn) es

-- The first and the last level print nothing, and the level in between has the modules.
core_lines : (objects : List Object) → lines (section core (each initcalls_of objects)) ≡ []
unfolding section initcalls_of call
core_lines [] = refl
core_lines (main_o ∷ os) = core_lines os
core_lines (mod1_o ∷ os) = core_lines os
core_lines (mod2_o ∷ os) = core_lines os
core_lines (module_o ∷ os) = core_lines os

late_lines : (objects : List Object) → lines (section late (each initcalls_of objects)) ≡ []
unfolding section initcalls_of call
late_lines [] = refl
late_lines (main_o ∷ os) = late_lines os
late_lines (mod1_o ∷ os) = late_lines os
late_lines (mod2_o ∷ os) = late_lines os
late_lines (module_o ∷ os) = late_lines os

user_lines :
    (objects : List Object)
    → lines (section user (each initcalls_of objects)) ≡ each init_line objects
unfolding section initcalls_of call
user_lines [] = refl
user_lines (main_o ∷ os) = user_lines os
user_lines (mod1_o ∷ os) = ap (λ ls. func_of mod1_init ∷ ls) (user_lines os)
user_lines (mod2_o ∷ os) = ap (λ ls. func_of mod2_init ∷ ls) (user_lines os)
user_lines (module_o ∷ os) = user_lines os

exit_lines :
    (objects : List Object)
    → each call (do_exitcalls (each exitcalls_of objects)) ≡ each exit_line objects
unfolding do_exitcalls exitcalls_of call
exit_lines [] = refl
exit_lines (main_o ∷ os) = exit_lines os
exit_lines (mod1_o ∷ os) = ap (λ ls. func_of mod1_exit ∷ ls) (exit_lines os)
exit_lines (mod2_o ∷ os) = ap (λ ls. func_of mod2_exit ∷ ls) (exit_lines os)
exit_lines (module_o ∷ os) = exit_lines os

-- Whatever the object files and the order of linking, main prints the lines of the modules'
-- functions for the start in the order of linking, then its own line, and then the lines of their
-- functions for the end, in the order of linking too.
pub module_main_lem :
    (objects : List Object)
    → main objects ≡ each init_line objects ++ (do_something ∷ each exit_line objects)
unfolding main
module_main_lem objects =
    let linked = each initcalls_of objects in
    let c = section core linked in
    let u = section user linked in
    let l = section late linked in
    let starts : lines (do_initcalls linked) ≡ each init_line objects =
      ap lines (in_turn linked)
      ∙ each-append (λ e. call e.fn) c (u ++ (l ++ []))
      ∙ ap₂ ◌++◌ (core_lines objects) (
          each-append (λ e. call e.fn) u (l ++ [])
          ∙ ap₂ ◌++◌ (user_lines objects) (ap lines (append-nil l) ∙ late_lines objects)
          ∙ append-nil (each init_line objects)) in
    ap₂ (λ ps bs. ps ++ (do_something ∷ bs)) starts (exit_lines objects)
