-- ===== src/Examples/Multithreaded/Handlers.antt =====
-- What a thread of examples/queue_multithreaded/main.c does behind a call.
use ohmylib.Prelude.{ℕ, suc, true, false, none, some, [], ◌∷◌, ◌++◌, if◌then◌else◌}
use ohmylib.Prelude.Int.{ℤ, pos, negsuc}
use ohmylib.Prelude.Words.{store_pointer, load_pointer}
use ohmylib.Network.{equals}
use ohmylib.Queue.State.{returns, fails}
use ohmylib.Queue.Deadline.{Timespec}
use ohmylib.Queue.Transfer.{Outcome}
use ohmylib.Examples.Queue.{shared_of}
use ohmylib.Examples.Vector.{store}
use ohmylib.Examples.Multithreaded.State.{
  Reader, Process, set_reader, set_live, pushed, failed_to_push, got, got_nothing, looping,
  in_queue_send, returned, running, in_queue_recv, received,
}

-- `e = calloc(1, sizeof(*e)); e->idx = i;`
unfoldable pub calloced : ℕ → ℕ → Process → Process
calloced p_main e y = record y {
  shared = record y.shared { memory = store_pointer p_main e y.shared.memory };
  values = store e y.i y.values;
  live = set_live e true y.live;
}

-- main behind a turn of queue_send with the pointer `e`.
unfoldable pub after_send : Process → ℕ → Timespec → Outcome → Process
after_send y e ts o =
    let z = record y { shared = shared_of y.shared o } in
    elim o.reply [
      | none ↦ record z { main = in_queue_send e ts }
      | some (returns v) ↦ record z {
        i = suc y.i;
        main = looping;
        log = y.log ++ (pushed y.i ∷ []);
      }
      | some (fails errno) ↦ record z {
        i = suc y.i;
        main = looping;
        log = y.log ++ (failed_to_push y.i ∷ []);
      }
    ]

-- A reader behind a turn of queue_recv, with its variable at `p`.
unfoldable pub after_recv : Process → Reader → ℕ → Timespec → Outcome → Process
unfolding set_reader
after_recv y k p ts o =
    let t = shared_of y.shared o in
    let z = record y { shared = t } in
    elim o.reply [
      | none ↦ record z { readers = set_reader k (in_queue_recv ts) y.readers }
      | some (returns v) ↦ record z {
        readers = set_reader k (received (load_pointer p t.memory)) y.readers;
      }
      | some (fails errno) ↦ record z {
        readers = set_reader k running y.readers;
        log = y.log ++ (got_nothing k ∷ []);
      }
    ]

-- `printf("thread %ld got %d\n", tid, e->idx); free(e);`
unfoldable pub after_print : Process → Reader → ℕ → Process
unfolding set_reader
after_print y k e = record y {
  live = set_live e false y.live;
  readers = set_reader k running y.readers;
  log = y.log ++ (got k (y.values e) ∷ []);
}

-- pthread_create with its result; where it fails main returns.
unfoldable pub after_create : Process → Reader → ℤ → Process
unfolding set_reader
after_create y k ret =
    if equals ret (pos 0)
    then record y { readers = set_reader k running y.readers }
    else record y { main = returned (negsuc 0) }
