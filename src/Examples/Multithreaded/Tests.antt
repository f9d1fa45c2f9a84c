-- ===== src/Examples/Multithreaded/Tests.antt =====
-- The program with one element: both indices are received, and printed the other way round.
use ohmylib.Prelude.{
  ℕ, ◌*◌, ◌≤◌, ◌≡◌, ◌≢◌, ◌⊎◌, refl, arith, inl, inr, true, false, some, take, List, [], ◌∷◌, ◌++◌,
  if◌then◌else◌,
}
use mathlib.Core.List.{map}
use ohmylib.Prelude.Int.{pos}
use ohmylib.Prelude.Words.{bytes}
use ohmylib.Network.{equals}
use ohmylib.Queue.State.{queue_is_empty_locked, queue_is_full_locked}
use ohmylib.Queue.Create.{queue_create_static, queue_setup}
use ohmylib.Queue.Deadline.{Timespec, at_time, deadline}
use ohmylib.Queue.Transfer.{
  cond_read, queue_send, queue_send_wait, queue_put, queue_recv, queue_recv_wait, queue_take,
  recv_waited, wait_loop,
}
use ohmylib.Queue.Contents.{contents}
use ohmylib.Examples.Multithreaded.State.{
  Reader, first, second, looping, at_queue_empty_wait, not_created, pushed, got, got_nothing,
  Process, set_reader,
}
use ohmylib.Examples.Multithreaded.System.{
  starts, send, create, recv, recv_wakes, print, reach_empty_wait, Runs, RunLocks, here, then_turn,
}
use ohmylib.Examples.Multithreaded.Handlers.{
  calloced, after_send, after_recv, after_print, after_create,
}
use ohmylib.Examples.Multithreaded.Delivery.{
  collect, attempted_in, pushed_in, got_in, taken_by, indices, in_hand, numbers, held,
}
use ohmylib.Examples.Multithreaded.Program.{deliveries}

abbrev variables : Reader → ℕ
variables first = 32
variables second = 48

abbrev now : Timespec
now = at_time 7 0

abbrev begun : Process
begun = record {
  shared = record {
    queue = record {
      statically_allocated = true;
      nmemb = 1;
      size = 8;
      avail = 0;
      p_head = 100;
      p_tail = 100;
      p_write = 100;
      p_read = 100;
    };
    memory = λ a. 0;
  };
  values = λ a. 0;
  live = λ a. false;
  i = 0;
  main = looping;
  readers = λ k. not_created;
  log = [];
}

abbrev sends : ℕ → Process → Process
sends e y =
    let z = calloced 16 e y in
    after_send z e (deadline now (pos 1000)) (queue_send now [] (some z.shared) 16 (pos 1000))

abbrev receives : Reader → Process → Process
receives k y =
    after_recv y k (variables k) (deadline now (pos 100))
      (queue_recv now [] (some y.shared) (variables k) (pos 100))

abbrev wakes : Reader → Process → Process
wakes k y = after_recv y k (variables k) (deadline now (pos 100)) (
    recv_waited (variables k)
      (wait_loop queue_is_empty_locked cond_read (deadline now (pos 100)) [] y.shared 110))

abbrev created_both : Process
created_both = after_create (after_create (sends 5000 begun) first (pos 0)) second (pos 0)

abbrev both_received : Process
both_received = receives second (sends 6000 (receives first created_both))

abbrev both_printed : Process
both_printed = after_print (after_print both_received second 6000) first 5000

abbrev ended : Process
ended = record (wakes first (receives first both_printed)) { main = at_queue_empty_wait }

log_lem : ended.log ≡ pushed 0 ∷ pushed 1 ∷ got second 1 ∷ got first 0 ∷ got_nothing first ∷ []
unfolding calloced after_send after_recv after_print after_create queue_send queue_recv queue_put
    queue_take equals set_reader queue_is_empty_locked queue_is_full_locked queue_send_wait
    queue_recv_wait wait_loop
log_lem = refl

whole_run : Runs 1 16 variables begun ended
unfolding calloced after_send after_recv after_print after_create queue_send queue_recv queue_put
    queue_take equals set_reader queue_is_empty_locked queue_is_full_locked queue_send_wait
    queue_recv_wait wait_loop
whole_run =
    then_turn
      (then_turn
        (then_turn
          (then_turn
            (then_turn
              (then_turn
                (then_turn
                  (then_turn
                    (then_turn
                      (then_turn
                        (then_turn here
                          (send 5000 now refl (inl (omega arith)) (omega arith) (omega arith) refl))
                        (create first (pos 0) refl (refl, refl)))
                      (create second (pos 0) refl (refl, (λ e. cc e), refl)))
                    (recv first now tt refl))
                  (send 6000 now refl (inr (omega arith, (λ e. cc e), λ e. cc e)) (omega arith)
                    (omega arith) refl))
                (recv second now tt refl))
              (print second 6000 tt refl))
            (print first 5000 tt refl))
          (recv first now tt refl))
        (recv_wakes first (deadline now (pos 100)) 110 tt refl))
      (reach_empty_wait refl refl)

deliveries_example :
    RunLocks 1 16 variables whole_run
    × ((ptrs : List ℕ) × (taken : List (Reader × ℕ)) × (contents ended.shared ≡ map (bytes 8) ptrs)
        × (collect attempted_in ended.log ≡ numbers ended.i)
        × (collect pushed_in ended.log ≡ indices taken ++ map ended.values ptrs)
        × ((k : Reader) → taken_by k taken ≡ collect (got_in k) ended.log ++ in_hand k ended)
        × (take 1 (collect pushed_in ended.log) ≡ take 1 (collect attempted_in ended.log))
        × ((ended.main ≢ at_queue_empty_wait) ⊎ (ended.i ≡ 2 * 1))
        × ((x : ℕ) → held x ended.main ended.readers ptrs ≤ (if ended.live x then 1 else 0)))
deliveries_example =
    deliveries 1 900 100 16 variables (λ a. 0) (λ a. 0) (λ a. false) begun ended (omega arith)
      (omega arith) (unfold starts queue_create_static queue_setup in refl)
      (record {
        main_outside = inl (omega arith);
        outside = elim [ first ↦ inl (omega arith) | second ↦ inl (omega arith) ];
        apart = elim [ first ↦ inr (omega arith) | second ↦ inr (omega arith) ];
      })
      whole_run
