-- ===== src/Queue/State.antt =====
-- struct queue_s of includes/queue.h, and what the functions of lib/queue.c report.
-- The mutex and the conditions of the struct are the `Sync` events of `Queue.Transfer`.
use ohmylib.Prelude.{ℕ, Bool, Memory, ◌==◌}
use ohmylib.Prelude.Int.{ℤ}

-- Pointers are byte addresses.
pub record Queue : Type 0 where
  pub statically_allocated : Bool
  pub nmemb : ℕ
  pub size : ℕ
  pub avail : ℕ
  pub p_head : ℕ
  pub p_tail : ℕ
  pub p_write : ℕ
  pub p_read : ℕ

pub data Errno : Type 0 where
  einval enospc eagain enomem : Errno

-- What a call returns: a value, or -1 with `errno` set.
pub data Reply : Type 0 where
  returns : ℤ → Reply
  fails : Errno → Reply

-- What the threads share: the struct, and the memory that its pointers refer to.
pub record Shared : Type 0 where
  pub queue : Queue
  pub memory : Memory

unfoldable pub queue_is_empty_locked : Queue → Bool
queue_is_empty_locked q = q.avail == 0

unfoldable pub queue_is_full_locked : Queue → Bool
queue_is_full_locked q = q.nmemb == q.avail
