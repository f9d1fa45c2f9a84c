-- ===== src/Queue/Deadline.antt =====
-- queue_ts_add, and the deadline that the waiting functions compute from it.
use ohmylib.Prelude.{ℕ, ◌+◌, ◌-◌, ◌*◌, ◌/◌, ◌%◌, ◌<◌, ◌≡◌, arith, Bool, ltb, ◌==◌, if◌then◌else◌}
use ohmylib.Prelude.{Bool-cases, inl, inr}
use ohmylib.Prelude.Int.{ℤ, pos, negsuc, ◌+ℤ◌, ◌-ℤ◌, ltb_ℤ, scale_ℤ, quot_ℤ, rem_ℤ}

-- struct timespec of <time.h>.
pub record Timespec : Type 0 where
  pub tv_sec : ℤ
  pub tv_nsec : ℤ

unfoldable pub queue_ts_add : Timespec → ℤ → Timespec
queue_ts_add ts timeout =
    let nsec = ts.tv_nsec +ℤ scale_ℤ 1000000 (rem_ℤ timeout 1000) in
    if ltb_ℤ (pos 999999999) nsec
    then record {
      tv_sec = ts.tv_sec +ℤ (quot_ℤ timeout 1000 +ℤ pos 1);
      tv_nsec = nsec -ℤ pos 999999999;
    }
    else record { tv_sec = ts.tv_sec +ℤ quot_ℤ timeout 1000; tv_nsec = nsec }

-- `if(timeout) queue_ts_add(&ts, timeout)`
unfoldable pub deadline : Timespec → ℤ → Timespec
unfolding queue_ts_add
deadline now (pos n) = if n == 0 then now else queue_ts_add now (pos n)
deadline now (negsuc n) = queue_ts_add now (negsuc n)

-- A point in time from the epoch on, in whole seconds and nanoseconds.
abbrev pub at_time : ℕ → ℕ → Timespec
at_time s n = record { tv_sec = pos s; tv_nsec = pos n }

abbrev pub nanoseconds : ℕ → ℕ → ℕ
nanoseconds s n = s * 1000000000 + n

-- One where the nanoseconds of `now` and of the timeout make up a second or more.
abbrev pub carried : ℕ → ℕ → Bool
carried n t = ltb 999999999 (n + t % 1000 * 1000000)

-- For a time whose nanoseconds are below 10 ^ 9 and a timeout in milliseconds that is not
-- negative, queue_ts_add gives a time whose nanoseconds are below 10 ^ 9, and which is the sum
-- of both, or one nanosecond after the sum where the nanoseconds carry into the seconds.
pub queue_ts_add_lem :
    (s n t : ℕ)
    → n < 1000000000
    → (s' : ℕ) × (n' : ℕ) × (queue_ts_add (at_time s n) (pos t) ≡ at_time s' n')
      × (n' < 1000000000)
      × (nanoseconds s' n' ≡ nanoseconds s n + t * 1000000 + (if carried n t then 1 else 0))
unfolding queue_ts_add
queue_ts_add_lem s n t h = elim (Bool-cases (carried n t)) [
  | inl over ↦ (
    s + t / 1000 + 1,
    n + t % 1000 * 1000000 - 999999999,
    ground arith,
    ground arith,
    ground arith,
  )
  | inr under ↦ (s + t / 1000, n + t % 1000 * 1000000, ground arith, ground arith, ground arith)
]
