-- ===== src/Timestamp.antt =====
-- lib/timestamp.c: the time since a POSIX timer was set. The calls of the timer are parameters.
pub mod Elapsed
pub mod Stopwatch
mod Tests
use ohmylib.Prelude.{ℕ, ◌+◌, ◌-◌, ◌%◌, ◌^◌, Option, none, some, ltb, if◌then◌else◌}
use ohmylib.Prelude.Int.{
  ℤ, pos, negsuc, pos_part, neg_part, ◌+ℤ◌, ◌-ℤ◌, ltb_ℤ, scale_ℤ, quot_ℤ, rem_ℤ,
}
use ohmylib.Queue.Deadline.{Timespec}

-- struct itimerspec of <time.h>.
pub record Itimerspec : Type 0 where
  pub it_interval : Timespec
  pub it_value : Timespec

-- The calls of <time.h>, in a world that they change. A pointer that is NULL is `none`.
pub record Timers : Type 1 where
  pub World : Type 0
  -- The returned number, and `*tid`.
  pub timer_create : World → ℤ × ℕ × World
  pub timer_settime : World → ℕ → Itimerspec → ℤ × World
  pub timer_gettime : World → ℕ → Option Itimerspec → ℤ × Option Itimerspec
  pub timer_delete : World → ℕ → World

abbrev pub int32_max : ℕ
int32_max = 2147483647

-- The conversions from `long` to `uint64_t` and back.
abbrev pub word_of_long : ℤ → ℕ
word_of_long a = (pos_part a + (2 ^ 64 - neg_part a % 2 ^ 64)) % 2 ^ 64

abbrev pub long_of_word : ℕ → ℤ
long_of_word w = if ltb w (2 ^ 63) then pos w else negsuc (2 ^ 64 - w - 1)

abbrev pub seconds_only : ℕ → Timespec
seconds_only s = record { tv_sec = pos s; tv_nsec = pos 0 }

abbrev pub longest : Itimerspec
longest = record { it_interval = seconds_only int32_max; it_value = seconds_only int32_max }

-- The interval less the remaining time, through `uint64_t`. The products do not overflow a
-- `long` for a time of less than 2 ^ 63 nanoseconds.
abbrev pub elapsed_nsec : Itimerspec → ℤ
elapsed_nsec cur =
    let whole = scale_ℤ 1000000000 cur.it_interval.tv_sec in
    let left = scale_ℤ 1000000000 cur.it_value.tv_sec +ℤ cur.it_value.tv_nsec in
    long_of_word (word_of_long (whole -ℤ left))

-- The elapsed time in place of the remaining one.
unfoldable pub to_elapsed : Itimerspec → Itimerspec
to_elapsed cur =
    if ltb_ℤ (pos 0) cur.it_interval.tv_sec
    then record cur {
      it_value = record {
        tv_sec = quot_ℤ (elapsed_nsec cur) 1000000000;
        tv_nsec = rem_ℤ (elapsed_nsec cur) 1000000000;
      };
    }
    else cur

module _ (T : Timers) where
  unfoldable pub timestamp_reset : T.World → ℕ → ℤ × T.World
  timestamp_reset w tid = T.timer_settime w tid longest

  unfoldable pub timestamp_create : T.World → ℤ × ℕ × T.World
  unfolding timestamp_reset
  timestamp_create w =
      let (ret, tid, w1) = T.timer_create w in
      let (ret2, w2) = timestamp_reset w1 tid in
      if ltb_ℤ ret (pos 0) then (negsuc 0, tid, w1) else (ret2, tid, w2)

  unfoldable pub timestamp_destory : T.World → ℕ → T.World
  timestamp_destory w tid = T.timer_delete w tid

  unfoldable pub timestamp_elapsed : T.World → ℕ → Option Itimerspec → ℤ × Option Itimerspec
  unfolding to_elapsed
  timestamp_elapsed w tid curr_value =
      let (ret, cur) = T.timer_gettime w tid curr_value in
      if ltb_ℤ ret (pos 0)
      then (negsuc 0, cur)
      else (pos 0, elim cur [ none ↦ none | some c ↦ some (to_elapsed c) ])
