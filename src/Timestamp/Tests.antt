-- ===== src/Timestamp/Tests.antt =====
-- A timer that counts down, and the elapsed time it shows.
use ohmylib.Prelude.{ℕ, ◌+◌, ◌-◌, ◌*◌, ◌≡◌, refl, ap, arith, some}
use ohmylib.Prelude.Int.{ℤ, pos, pos_part}
use ohmylib.Queue.Deadline.{nanoseconds, at_time}
use ohmylib.Timestamp.{
  Itimerspec, Timers, int32_max, longest, timestamp_reset, timestamp_create, timestamp_elapsed,
}
use ohmylib.Timestamp.Elapsed.{split_time, remaining}
use ohmylib.Timestamp.Stopwatch.{CountsDown, create-elapsed}

-- One timer: what it was set to, and how long ago.
record Armed : Type 0 where
  spec : Itimerspec
  age : ℕ

abbrev value_of : Itimerspec → ℕ
value_of s = nanoseconds (pos_part s.it_value.tv_sec) (pos_part s.it_value.tv_nsec)

abbrev one_timer : Timers
one_timer = record {
  World = Armed;
  timer_create = λ w. (pos 0, 4, w);
  timer_settime = λ w tid s. (pos 0, record { spec = s; age = 0 });
  timer_gettime = λ w tid buf.
      (pos 0, some (record (w.spec) { it_value = split_time (value_of w.spec - w.age) }));
  timer_delete = λ w tid. w;
}

abbrev counting_down : CountsDown one_timer
counting_down = record {
  Passes = λ w1 w2 tid d. w2 ≡ record { spec = w1.spec; age = w1.age + d };
  shows = λ w w1 w2 tid d interval buf set passes lt.
      let was : record { spec = remaining interval (split_time (interval * 1000000000)); age = 0 }
          ≡ w1 =
        ap (λ (x : ℤ × Armed). x.1) set in
      let left : value_of (remaining interval (split_time (interval * 1000000000))) - (0 + d)
          ≡ interval * 1000000000 - d =
        omega arith in
      rw (passes, ← was) (rw left refl);
}

abbrev unset : Armed
unset = record { spec = longest; age = 77 }

abbrev set_now : Armed
set_now = record { spec = longest; age = 0 }

abbrev later : Armed
later = record { spec = longest; age = 2500000000 }

abbrev two_and_a_half : Itimerspec
two_and_a_half = remaining int32_max (at_time 2 500000000)

abbrev unread : Itimerspec
unread = remaining 0 (at_time 0 0)

two_and_a_half_later :
    timestamp_elapsed one_timer later 4 (some unread) ≡ (pos 0, some two_and_a_half)
two_and_a_half_later =
    create-elapsed one_timer counting_down unset set_now later 4 2500000000 unread
      (unfold timestamp_create timestamp_reset in refl) refl (omega arith)
