-- ===== src/Timestamp/Elapsed.antt =====
-- The arithmetic of timestamp_elapsed.
use ohmylib.Prelude.{ℕ, ◌-◌, ◌*◌, ◌/◌, ◌%◌, ◌^◌, ◌≤◌, ◌<◌, ◌≡◌, arith}
use ohmylib.Prelude.Int.{pos, ◌+ℤ◌, ◌-ℤ◌, scale_ℤ}
use ohmylib.Queue.Deadline.{Timespec, at_time}
use ohmylib.Timestamp.{Itimerspec, to_elapsed, elapsed_nsec, seconds_only}

-- A number of nanoseconds in seconds and a rest.
abbrev pub split_time : ℕ → Timespec
split_time t = at_time (t / 1000000000) (t % 1000000000)

abbrev pub remaining : ℕ → Timespec → Itimerspec
remaining interval value = record { it_interval = seconds_only interval; it_value = value }

module _ (interval elapsed : ℕ) (some_time : 0 < interval) (small : interval * 1000000000 < 2 ^ 63)
    (within : elapsed ≤ interval * 1000000000) where
  abbrev left : Itimerspec
  left = remaining interval (split_time (interval * 1000000000 - elapsed))

  difference :
      scale_ℤ 1000000000 (pos interval)
        -ℤ (scale_ℤ 1000000000 left.it_value.tv_sec +ℤ left.it_value.tv_nsec)
      ≡ pos elapsed
  difference = ground arith

  nsec : elapsed_nsec left ≡ pos elapsed
  nsec = rw difference (ground arith)

  pub to_elapsed_lem : to_elapsed left ≡ remaining interval (split_time elapsed)
  unfolding to_elapsed
  to_elapsed_lem = rw nsec (ground arith)
