-- ===== src/Examples/Multithreaded/State.antt =====
-- What the threads of examples/queue_multithreaded/main.c share, and where they stand.
use ohmylib.Prelude.{ℕ, Bool, true, false, Option, none, some, List, ◌==◌, if◌then◌else◌}
use ohmylib.Prelude.Int.{ℤ}
use ohmylib.Queue.State.{Shared}
use ohmylib.Queue.Deadline.{Timespec}
use ohmylib.Examples.Vector.{Values}

-- The threads that main creates.
pub data Reader : Type 0 where
  first second : Reader

-- What is printed of the queue's use; `pushed` stands for a queue_send that returned 0.
pub data Event : Type 0 where
  pushed failed_to_push : ℕ → Event
  got : Reader → ℕ → Event
  got_nothing : Reader → Event

-- Where main stands: at the head of a loop, in a wait with its pointer and its deadline, at the call
-- of queue_empty_wait, or at an end.
pub data MainAt : Type 0 where
  looping : MainAt
  in_queue_send : ℕ → Timespec → MainAt
  at_queue_empty_wait : MainAt
  returned : ℤ → MainAt

-- Where a reader stands.
pub data ReaderAt : Type 0 where
  not_created running : ReaderAt
  in_queue_recv : Timespec → ReaderAt
  received : ℕ → ReaderAt

-- `values` is the field `idx` by address, `live` the blocks that calloc gave and free did not take
-- back, and `log` stands oldest first.
pub record Process : Type 0 where
  pub shared : Shared
  pub values : Values
  pub live : ℕ → Bool
  pub i : ℕ
  pub main : MainAt
  pub readers : Reader → ReaderAt
  pub log : List Event

abbrev pub is_reader : Reader → Reader → Bool
is_reader first first = true
is_reader first second = false
is_reader second first = false
is_reader second second = true

unfoldable pub set_reader : Reader → ReaderAt → (Reader → ReaderAt) → Reader → ReaderAt
set_reader k r readers j = if is_reader j k then r else readers j

abbrev pub set_live : ℕ → Bool → (ℕ → Bool) → ℕ → Bool
set_live p v live a = if a == p then v else live a

-- What a reader has received and not printed.
abbrev pub hand : ReaderAt → Option ℕ
hand not_created = none
hand running = none
hand (in_queue_recv ts) = none
hand (received e) = some e
