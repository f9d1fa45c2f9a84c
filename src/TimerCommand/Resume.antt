-- ===== src/TimerCommand/Resume.antt =====
-- The value that a pause stores, and a later resume.
use ohmylib.Prelude.{
  ◌≡◌, ◌≢◌, ◌⊎◌, refl, ◌∙◌, arith, true, false, Option, some, List, [], ◌∷◌, ◌++◌,
}
use ohmylib.Timestamp.{Itimerspec}
use ohmylib.TimerCommand.{
  Call, timer_settime, dump_itimerspec, resumed, paused, Press, State, failed, is_disarmed,
  zero_value, Key, key_h, key_p, key_r, key_e, key_x, key_i, key_o, key_q, key_other, key_of, act,
  command, command_loop,
}

-- A key that leaves the stored value: neither 'r' nor 'q', and no pause of an armed timer.
abbrev pub IsPassive : Press → Type 0
IsPassive k =
    (key_of k.c ≢ key_r)
    × (key_of k.c ≢ key_q)
    × ((key_of k.c ≢ key_p) ⊎ (failed k ≡ true) ⊎ (is_disarmed k.curr_value ≡ true))

abbrev pub AllPassive : List Press → Type 0
AllPassive [] = Unit
AllPassive (k ∷ ks) = IsPassive k × AllPassive ks

record Leaves (q : Key) (k : Press) (s : State) : Type 0 where
  after : State
  returned : act q k s ≡ some after
  same : after.stored_value ≡ s.stored_value
  runs : after.run ≡ s.run

act-Leaves :
    (q : Key) (k : Press) (s : State)
    → q ≢ key_r
    → q ≢ key_q
    → (q ≢ key_p) ⊎ (failed k ≡ true) ⊎ (is_disarmed k.curr_value ≡ true)
    → Leaves q k s
act-Leaves key_h k s r q p = record { after = _; returned = refl; same = refl; runs = refl }
act-Leaves key_r k s r q p = absurd (r refl)
act-Leaves key_q k s r q p = absurd (q refl)
act-Leaves key_other k s r q p = record { after = _; returned = refl; same = refl; runs = refl }
act-Leaves key_p k s r q p = record {
  after = _;
  returned = refl;
  same = ground arith;
  runs = ground arith;
}
act-Leaves key_e k s r q p = record {
  after = _;
  returned = refl;
  same = ground arith;
  runs = ground arith;
}
act-Leaves key_x k s r q p = record {
  after = _;
  returned = refl;
  same = ground arith;
  runs = ground arith;
}
act-Leaves key_i k s r q p = record {
  after = _;
  returned = refl;
  same = ground arith;
  runs = ground arith;
}
act-Leaves key_o k s r q p = record {
  after = _;
  returned = refl;
  same = ground arith;
  runs = ground arith;
}

-- The calls of a successful resume, newest first, on a state that holds `v`.
abbrev pub Resumes : Itimerspec → Option State → Type 0
Resumes v o =
    (before : List Call) × (o
      ≡ some (record {
        stored_value = some zero_value;
        run = true;
        calls = dump_itimerspec resumed v ∷ timer_settime v ∷ before;
      }))

resume_held :
    (r : Press) (s : State) (v : Itimerspec)
    → key_of r.c ≡ key_r
    → failed r ≡ false
    → is_disarmed v ≡ false
    → s.stored_value ≡ some v
    → s.run ≡ true
    → Resumes v (command_loop (r ∷ []) s)
unfolding command_loop command
resume_held r s v kr ok armed held runs =
    (s.calls, rw (command_loop, command, kr, held, armed, ok) (rw runs))

resume_later :
    (ks : List Press) (r : Press) (s : State) (v : Itimerspec)
    → AllPassive ks
    → key_of r.c ≡ key_r
    → failed r ≡ false
    → is_disarmed v ≡ false
    → s.stored_value ≡ some v
    → s.run ≡ true
    → Resumes v (command_loop (ks ++ (r ∷ [])) s)
unfolding command_loop command
resume_later [] r s v a kr ok armed held runs = resume_held r s v kr ok armed held runs
resume_later (k ∷ ks) r s v a kr ok armed held runs =
    let l = act-Leaves (key_of k.c) k s a.0.0 a.0.1 a.0.2 in
    let go : l.after.run ≡ true = l.runs ∙ runs in
    let (before, e) = resume_later ks r l.after v a.1 kr ok armed (l.same ∙ held) go in
    (before, rw (command_loop, command, l.returned) (rw go e))

abbrev paused_state : Press → State → State
paused_state p s = record {
  stored_value = some p.curr_value;
  run = true;
  calls = dump_itimerspec paused p.curr_value ∷ timer_settime zero_value ∷ s.calls;
}

-- In a running program, a successful pause of a timer that is armed, then any keys other than
-- resume and quit and than a successful pause of an armed timer, and then a successful resume
-- end with the call that sets the timer to what it had left when it was paused, and with a
-- stored value of zero.
pub pause-resume :
    (p r : Press) (ks : List Press) (s : State)
    → s.run ≡ true
    → key_of p.c ≡ key_p
    → failed p ≡ false
    → is_disarmed p.curr_value ≡ false
    → AllPassive ks
    → key_of r.c ≡ key_r
    → failed r ≡ false
    → Resumes p.curr_value (command_loop (p ∷ ks ++ (r ∷ [])) s)
unfolding command_loop command
pause-resume p r ks s runs kp okp armed a kr okr =
    let (before, e) = resume_later ks r (paused_state p s) p.curr_value a kr okr armed refl refl in
    (before, rw (command_loop, command, kp, okp, armed) (rw runs e))
