-- ===== src/TimerCommand/Cleanup.antt =====
-- The end of the program: the timer and the terminal.
use ohmylib.Prelude.{
  ℕ, suc, ◌≡◌, ◌≢◌, ◌⊎◌, refl, ap, ◌∙◌, arith, true, false, Bool-cases, inl, inr, none, some, List,
  [], ◌∷◌, if◌then◌else◌,
}
use ohmylib.Prelude.Int.{ℤ, pos, negsuc, ltb_ℤ}
use ohmylib.Terminal
use ohmylib.Terminal.{Termios}
use ohmylib.Terminal.Flags.{IsCooked, termios_reset_kept, termios_reset_restores}
use ohmylib.TimerCommand.{
  Call, sig_register, timer_create, timer_delete, timer_settime, getchar_once, termios_reset, error,
  Press, State, Key, key_h, key_p, key_r, key_e, key_x, key_i, key_o, key_q, key_other, key_of, act,
  command, command_loop, End, started, default_value, main,
}

abbrev pub deletes : List Call → ℕ
deletes [] = 0
deletes (timer_delete ∷ cs) = suc (deletes cs)
deletes (c ∷ cs) = deletes cs

-- What the calls make of the terminal.
abbrev pub terminal_of : List Call → Termios → Termios
terminal_of [] t = t
terminal_of (getchar_once ∷ cs) t = Terminal.getchar_once (terminal_of cs t)
terminal_of (termios_reset ∷ cs) t = Terminal.termios_reset (terminal_of cs t)
terminal_of (c ∷ cs) t = terminal_of cs t

abbrev pub IsNever : Key → List Press → Type 0
IsNever q [] = Unit
IsNever q (k ∷ ks) = (key_of k.c ≢ q) × IsNever q ks

abbrev pub HasKey : Key → List Press → Type 0
HasKey q [] = ⊥
HasKey q (k ∷ ks) = (key_of k.c ≡ q) ⊎ HasKey q ks

-- A key other than 'r' is acted on; it deletes nothing and leaves the terminal alone, and 'q'
-- stops the loop.
record Acts (q : Key) (k : Press) (s : State) : Type 0 where
  after : State
  returned : act q k s ≡ some after
  kept : deletes after.calls ≡ deletes s.calls
  still : (t : Termios) → terminal_of after.calls t ≡ terminal_of s.calls t
  quits : q ≡ key_q → after.run ≡ false

act-Acts : (q : Key) (k : Press) (s : State) → q ≢ key_r → Acts q k s
act-Acts key_h k s n = record {
  after = _;
  returned = refl;
  kept = refl;
  still = λ t. refl;
  quits = λ e. cc;
}
act-Acts key_r k s n = absurd (n refl)
act-Acts key_q k s n = record {
  after = _;
  returned = refl;
  kept = refl;
  still = λ t. refl;
  quits = λ e. refl;
}
act-Acts key_other k s n = record {
  after = _;
  returned = refl;
  kept = refl;
  still = λ t. refl;
  quits = λ e. cc;
}
act-Acts key_p k s n = record {
  after = _;
  returned = refl;
  kept = ground arith;
  still = λ t. ground arith;
  quits = λ e. cc;
}
act-Acts key_e k s n = record {
  after = _;
  returned = refl;
  kept = ground arith;
  still = λ t. ground arith;
  quits = λ e. cc;
}
act-Acts key_x k s n = record {
  after = _;
  returned = refl;
  kept = ground arith;
  still = λ t. ground arith;
  quits = λ e. cc;
}
act-Acts key_i k s n = record {
  after = _;
  returned = refl;
  kept = ground arith;
  still = λ t. ground arith;
  quits = λ e. cc;
}
act-Acts key_o k s n = record {
  after = _;
  returned = refl;
  kept = ground arith;
  still = λ t. ground arith;
  quits = λ e. cc;
}

command_loop_ends :
    (ks : List Press) (s : State)
    → IsNever key_r ks
    → HasKey key_q ks
    → (t : State) × (command_loop ks s ≡ some t)
      × (t.run ≡ false)
      × (deletes t.calls ≡ deletes s.calls)
      × ((u : Termios) → terminal_of t.calls u ≡ terminal_of s.calls u)
unfolding command_loop command
command_loop_ends [] s n h = absurd h
command_loop_ends (k ∷ ks) s n h =
    let a = act-Acts (key_of k.c) k s n.0 in
    elim (Bool-cases a.after.run) [
      | inr stopped ↦ (
        a.after,
        rw (command_loop, command, a.returned) (rw stopped refl),
        stopped,
        a.kept,
        a.still,
      )
      | inl runs ↦
          let (t, e, stop, kept, still) = command_loop_ends ks a.after n.1 (later a runs h) in
          (
            t,
            rw (command_loop, command, a.returned) (rw runs e),
            stop,
            kept ∙ a.kept,
            λ u. still u ∙ a.still u,
          )
    ]
  where
    later :
        (a : Acts (key_of k.c) k s)
        → a.after.run ≡ true
        → (key_of k.c ≡ key_q) ⊎ HasKey key_q ks
        → HasKey key_q ks
    later a runs (inr h) = h
    later a runs (inl q) = let stops = a.quits q in cc

some_ne_none : (z : ℤ) → some z ≢ none
some_ne_none z e = cc

abbrev not_created : End
not_created = record {
  ret = some (negsuc 0);
  calls = termios_reset ∷ error ∷ timer_create ∷ sig_register ∷ [];
}

abbrev not_armed : End
not_armed = record {
  ret = some (negsuc 0);
  calls =
      termios_reset
      ∷ timer_delete
      ∷ error
      ∷ timer_settime default_value
      ∷ timer_create
      ∷ sig_register
      ∷ [];
}

-- If no key is the resume key and some key is the quit key, main returns, whatever the calls
-- on the timer return; it has deleted the timer once where it was created, and never where it
-- was not, and it leaves the flags of a terminal that was in canonical mode with echo as they
-- were.
pub main_lem :
    (create_ret settime_ret : ℤ) (ks : List Press) (t : Termios)
    → IsNever key_r ks
    → HasKey key_q ks
    → IsCooked t
    → (e : End) × (main create_ret settime_ret ks ≡ some e)
      × (e.ret ≢ none)
      × (deletes e.calls ≡ (if ltb_ℤ create_ret (pos 0) then 0 else 1))
      × ((terminal_of e.calls t).c_lflag ≡ t.c_lflag)
unfolding main
main_lem create_ret settime_ret ks t n h cooked =
    let same = termios_reset_kept t cooked in
    elim (Bool-cases (ltb_ℤ create_ret (pos 0))) [
      | inl c ↦ (not_created, rw (main, c) refl, some_ne_none (negsuc 0), rw c refl, same)
      | inr c ↦ elim (Bool-cases (ltb_ℤ settime_ret (pos 0))) [
        | inl f ↦ (not_armed, rw (main, c, f) refl, some_ne_none (negsuc 0), rw c refl, same)
        | inr f ↦
            let (s, e, stop, kept, still) = command_loop_ends ks started n h in
            (
              record { ret = some (pos 0); calls = termios_reset ∷ timer_delete ∷ s.calls },
              rw (main, c, f, e) (rw stop refl),
              some_ne_none (pos 0),
              rw c (ap suc kept),
              ap (λ u. (Terminal.termios_reset u).c_lflag) (still t)
                  ∙ termios_reset_restores t cooked,
            )
      ]
    ]
