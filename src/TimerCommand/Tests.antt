-- ===== src/TimerCommand/Tests.antt =====
-- Sequences of keys: pause, show, resume, quit.
use ohmylib.Prelude.{ℕ, arith, ◌≡◌, ◌≢◌, refl, none, some, [], ◌∷◌, ◌++◌, inl, inr}
use ohmylib.Prelude.Int.{pos}
use ohmylib.Queue.Deadline.{at_time}
use ohmylib.Timestamp.{Itimerspec}
use ohmylib.Terminal.{Termios}
use ohmylib.TimerCommand.{Press, End, started, command_loop, main}
use ohmylib.TimerCommand.Resume.{Resumes, pause-resume}
use ohmylib.TimerCommand.Cleanup.{deletes, terminal_of, main_lem}

abbrev three_left : Itimerspec
three_left = record { it_interval = at_time 5 0; it_value = at_time 3 0 }

abbrev press : ℕ → Press
press c = record { c = c; ret = pos 0; curr_value = three_left }

pause-resume_example :
    Resumes three_left (command_loop (press 112 ∷ (press 101 ∷ []) ++ (press 114 ∷ [])) started)
pause-resume_example =
    pause-resume (press 112) (press 114) (press 101 ∷ []) started refl refl refl refl
      (((λ e. cc), (λ e. cc), inl (λ e. cc)), tt) refl refl

-- The flags 0x8a3b and the least number of bytes to read.
abbrev usual : Termios
usual = record { c_lflag = 35387; vmin = 1 }

main_example :
    (e : End) × (main (pos 0) (pos 0) (press 104 ∷ press 113 ∷ []) ≡ some e)
    × (e.ret ≢ none)
    × (deletes e.calls ≡ 1)
    × ((terminal_of e.calls usual).c_lflag ≡ 35387)
main_example =
    main_lem (pos 0) (pos 0) (press 104 ∷ press 113 ∷ []) usual ((λ e. cc), ((λ e. cc), tt))
      (inr (inl refl)) record { lt = omega arith; canonical = refl; echoes = refl }
