-- ===== src/Queue/Status.antt =====
-- queue_is_empty, queue_is_full and queue_space_available.
use ohmylib.Prelude.{◌+◌, ◌-◌, ◌%◌, ◌^◌, Option, none, some, if◌then◌else◌}
use ohmylib.Prelude.Int.{pos, int_of_word}
use ohmylib.Queue.State.{Queue, Reply, returns, fails, einval}
use ohmylib.Queue.State.{queue_is_empty_locked, queue_is_full_locked}
use ohmylib.Prelude.Int.{ℤ}

unfoldable pub queue_is_empty : Option Queue → Reply
unfolding queue_is_empty_locked
queue_is_empty none = fails einval
queue_is_empty (some q) = returns (if queue_is_empty_locked q then pos 1 else pos 0)

unfoldable pub queue_is_full : Option Queue → Reply
unfolding queue_is_full_locked
queue_is_full none = fails einval
queue_is_full (some q) = returns (if queue_is_full_locked q then pos 1 else pos 0)

-- The difference is a size_t, and is returned as an int.
unfoldable pub queue_space_available_locked : Queue → ℤ
queue_space_available_locked q = int_of_word ((q.nmemb + 2 ^ 64 - q.avail) % 2 ^ 64)

unfoldable pub queue_space_available : Option Queue → Reply
unfolding queue_space_available_locked
queue_space_available none = fails einval
queue_space_available (some q) = returns (queue_space_available_locked q)
