-- ===== src/TimerCommand.antt =====
-- posix/timer/timer.c: a program that arms, pauses and resumes a timer by single keys.
pub mod Resume
pub mod Cleanup
mod Tests
use ohmylib.Prelude.{
  ℕ, Bool, true, false, not, ◌&&◌, ◌||◌, Option, none, some, List, [], ◌∷◌, ◌==◌, if◌then◌else◌,
}
use ohmylib.Prelude.Int.{ℤ, pos, negsuc, pos_part, neg_part, ltb_ℤ}
use ohmylib.Queue.Deadline.{Timespec, at_time}
use ohmylib.Timestamp.{Itimerspec}

pub data Label : Type 0 where
  paused resumed remaining invervall oneshot : Label

-- What the program calls or prints.
pub data Call : Type 0 where
  sig_register timer_create timer_gettime timer_getoverrun timer_delete : Call
  timer_settime : Itimerspec → Call
  getchar_once termios_reset usage error : Call
  dump_itimerspec : Label → Itimerspec → Call
  has_expired : ℤ → Call

-- A key, and the outcome of the call on the timer that it leads to: the returned number, and the
-- value that the timer has, or had before.
pub record Press : Type 0 where
  pub c : ℕ
  pub ret : ℤ
  pub curr_value : Itimerspec

-- `stored_value` is `none` before it is first written; the calls stand newest first.
pub record State : Type 0 where
  pub stored_value : Option Itimerspec
  pub run : Bool
  pub calls : List Call

abbrev pub is_zero : ℤ → Bool
is_zero z = (pos_part z == 0) && (neg_part z == 0)

-- A value of 0 seconds and 0 nanoseconds is that of a timer that is not armed.
abbrev pub is_disarmed : Itimerspec → Bool
is_disarmed t = is_zero t.it_value.tv_sec && is_zero t.it_value.tv_nsec

abbrev pub zero_value : Itimerspec
zero_value = record { it_interval = at_time 0 0; it_value = at_time 0 0 }

abbrev pub default_value : Itimerspec
default_value = record { it_interval = at_time 5 0; it_value = at_time 5 0 }

abbrev pub once_value : Itimerspec
once_value = record { it_interval = at_time 0 0; it_value = at_time 5 0 }

abbrev pub failed : Press → Bool
failed k = ltb_ℤ k.ret (pos 0)

abbrev pub pause : Press → State → State
pause k s =
    if failed k
    then record s { calls = error ∷ timer_settime zero_value ∷ s.calls }
    else if is_disarmed k.curr_value
    then record s { calls = timer_settime zero_value ∷ s.calls }
    else record s {
      stored_value = some k.curr_value;
      calls = dump_itimerspec paused k.curr_value ∷ timer_settime zero_value ∷ s.calls;
    }

-- `none` where an uninitialised `stored_value` is read.
abbrev pub resume : Press → State → Option State
resume k s = elim s.stored_value [
  | none ↦ none
  | some v ↦ some (
      if is_disarmed v
      then s
      else if failed k
      then record s { calls = error ∷ timer_settime v ∷ s.calls }
      else record s {
        stored_value = some zero_value;
        calls = dump_itimerspec resumed v ∷ timer_settime v ∷ s.calls;
      })
]

abbrev pub show_remaining : Press → State → State
show_remaining k s =
    if failed k
    then record s { calls = error ∷ timer_gettime ∷ s.calls }
    else record s { calls = dump_itimerspec remaining k.curr_value ∷ timer_gettime ∷ s.calls }

abbrev pub show_expired : Press → State → State
show_expired k s =
    if failed k
    then record s { calls = error ∷ timer_getoverrun ∷ s.calls }
    else record s { calls = has_expired k.ret ∷ timer_getoverrun ∷ s.calls }

abbrev pub arm : Label → Itimerspec → Press → State → State
arm l v k s =
    if failed k
    then record s { calls = error ∷ timer_settime v ∷ s.calls }
    else record s { calls = dump_itimerspec l v ∷ timer_settime v ∷ s.calls }

-- The cases of the switch, in its order.
pub data Key : Type 0 where
  key_h key_p key_r key_e key_x key_i key_o key_q key_other : Key

abbrev pub key_of : ℕ → Key
key_of c =
    if c == 104
    then key_h
    else if c == 112
    then key_p
    else if c == 114
    then key_r
    else if c == 101
    then key_e
    else if c == 120
    then key_x
    else if c == 105
    then key_i
    else if c == 111
    then key_o
    else if c == 113
    then key_q
    else key_other

abbrev pub act : Key → Press → State → Option State
act key_h k s = some (record s { calls = usage ∷ s.calls })
act key_p k s = some (pause k s)
act key_r k s = resume k s
act key_e k s = some (show_remaining k s)
act key_x k s = some (show_expired k s)
act key_i k s = some (arm invervall default_value k s)
act key_o k s = some (arm oneshot once_value k s)
act key_q k s = some (record s { run = false })
act key_other k s = some s

unfoldable pub command : Press → State → Option State
command k s = act (key_of k.c) k s

-- The do loop over the keys that arrive.
unfoldable pub command_loop : List Press → State → Option State
unfolding command
command_loop [] s = some s
command_loop (k ∷ ks) s = elim (command k s) [
  | none ↦ none
  | some t ↦ if t.run then command_loop ks t else some t
]

-- How main ends: it returns, or waits for the next key; with its calls, newest first.
pub record End : Type 0 where
  pub ret : Option ℤ
  pub calls : List Call

abbrev pub leave : State → End
leave s =
    if s.run
    then record { ret = none; calls = s.calls }
    else record { ret = some (pos 0); calls = termios_reset ∷ timer_delete ∷ s.calls }

abbrev pub started : State
started = record {
  stored_value = none;
  run = true;
  calls = usage ∷ getchar_once ∷ timer_settime default_value ∷ timer_create ∷ sig_register ∷ [];
}

-- `create_ret` and `settime_ret` are what timer_create and the first timer_settime return.
unfoldable pub main : ℤ → ℤ → List Press → Option End
unfolding command_loop
main create_ret settime_ret keys =
    if ltb_ℤ create_ret (pos 0)
    then some (record {
      ret = some (negsuc 0);
      calls = termios_reset ∷ error ∷ timer_create ∷ sig_register ∷ [];
    })
    else if ltb_ℤ settime_ret (pos 0)
    then some (record {
      ret = some (negsuc 0);
      calls =
          termios_reset
          ∷ timer_delete
          ∷ error
          ∷ timer_settime default_value
          ∷ timer_create
          ∷ sig_register
          ∷ [];
    })
    else elim (command_loop keys started) [ none ↦ none | some s ↦ some (leave s) ]
