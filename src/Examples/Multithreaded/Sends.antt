-- ===== src/Examples/Multithreaded/Sends.antt =====
-- The turns in which main sends.
use ohmylib.Prelude.{
  ℕ, ◌*◌, ◌^◌, ◌≤◌, ◌<◌, ◌≡◌, refl, sym, ap, ap₂, ◌∙◌, arith, false, inl, inr, List, [], ◌∷◌, ◌++◌,
  append_assoc, if◌then◌else◌, Disjoint,
}
use mathlib.Core.List.{map, map-append}
use ohmylib.Prelude.Words.{read_bytes-store_pointer}
use ohmylib.Queue.State.{queue_is_full_locked}
use ohmylib.Queue.Deadline.{Timespec}
use ohmylib.Queue.Transfer.{Outcome, queue_put}
use ohmylib.Examples.Queue.Keeping.{Keeps-put, Keeps-with_pointer, room_left}
use ohmylib.Examples.Multithreaded.State.{
  Reader, first, second, pushed, failed_to_push, in_queue_send, looping, hand, Process,
}
use ohmylib.Examples.Multithreaded.Handlers.{calloced, after_send}
use ohmylib.Examples.Multithreaded.Outcomes.{Transfers}
use ohmylib.Examples.Multithreaded.Delivery.{
  Delivers, collect, pushed_in, attempted_in, got_in, indices, to_list, occurs, held, collect_one,
  collect_none, in_hand, occurs-append, map-store, AreSmall-snoc,
}

module _ (n b p_main : ℕ) where
  -- Some elements are in the queue, and some were taken.
  abbrev pub Delivered : Process → Type 0
  Delivered y = (ptrs : List ℕ) × (taken : List (Reader × ℕ)) × Delivers n b p_main y ptrs taken

  module _ (y : Process) (ptrs : List ℕ) (taken : List (Reader × ℕ)) where
    -- A struct that was not in use is allocated, and main is about to send it.
    pub calloced-Delivers :
        (e : ℕ) (ts : Timespec)
        → Delivers n b p_main (record y { main = looping }) ptrs taken
        → Disjoint p_main 8 b (n * 8)
        → e < 256 ^ 8
        → y.live e ≡ false
        → Delivers n b p_main
            (record (calloced p_main e y) { main = in_queue_send e ts })
            ptrs
            taken
    unfolding calloced
    calloced-Delivers e ts d outside small fresh =
        let bound : held e looping y.readers ptrs ≤ (if y.live e then 1 else 0) = d.apart e in
        let unused : held e looping y.readers ptrs ≤ 0 = rw fresh at bound in
        let not_in_hand : (k : Reader) → occurs e (to_list (hand (y.readers k))) ≡ 0 = elim [
          | first ↦ omega (arith, unused)
          | second ↦ omega (arith, unused)
        ] in
        record {
          keeps = Keeps-with_pointer b n y.shared ptrs d.keeps p_main outside e;
          order =
              d.order
              ∙ ap (λ is. indices taken ++ is) (sym (map-store e y.i y.values ptrs (omega arith)));
          owned = λ k.
              d.owned k
              ∙ ap (λ is. collect (got_in k) y.log ++ is)
                  (sym (map-store e y.i y.values (to_list (hand (y.readers k))) (not_in_hand k)));
          attempts = d.attempts;
          small = d.small;
          apart = λ x. let before = d.apart x in ground arith;
          at_main = (ground arith, small, read_bytes-store_pointer p_main e y.shared.memory);
        }

    -- A turn of queue_send.
    pub after_send-Delivered :
        (e : ℕ) (then_at ts : Timespec) (o : Outcome)
        → Delivers n b p_main (record y { main = in_queue_send e then_at }) ptrs taken
        → Transfers queue_is_full_locked (queue_put p_main) y.shared o
        → Delivered (after_send y e ts o)
    unfolding after_send
    after_send-Delivered e then_at ts o d (inl (replied, same)) =
        rw (replied, same)
          (
            ptrs,
            taken,
            record {
              keeps = d.keeps;
              order = d.order;
              owned = d.owned;
              attempts = d.attempts;
              small = d.small;
              apart = d.apart;
              at_main = d.at_main;
            },
          )
    after_send-Delivered e then_at ts o d (inr (inl (errno, replied, same))) =
        rw (replied, same)
          (
            ptrs,
            taken,
            record {
              keeps = d.keeps;
              order = collect_none pushed_in y.log (failed_to_push y.i) refl ∙ d.order;
              owned = λ k.
                  d.owned k
                  ∙ ap (λ is. is ++ in_hand k y)
                      (sym (collect_none (got_in k) y.log (failed_to_push y.i) refl));
              attempts =
                  collect_one attempted_in y.log (failed_to_push y.i)
                  ∙ ap (λ is. is ++ (y.i ∷ [])) d.attempts;
              small = d.small;
              apart = λ x. omega (arith, d.apart x);
              at_main = tt;
            },
          )
    after_send-Delivered e then_at ts o d (inr (inr (room, replied, put))) =
        rw (replied, put)
          (
            ptrs ++ (e ∷ []),
            taken,
            record {
              keeps =
                  Keeps-put b n y.shared ptrs d.keeps p_main e
                    (room_left b n y.shared ptrs d.keeps room) d.at_main.2;
              order =
                  collect_one pushed_in y.log (pushed y.i)
                  ∙ ap₂ (λ is i. is ++ (i ∷ [])) d.order (sym d.at_main.0)
                  ∙ append_assoc (indices taken) (map y.values ptrs) (y.values e ∷ [])
                  ∙ ap (λ is. indices taken ++ is) (sym (map-append y.values ptrs (e ∷ [])));
              owned = λ k.
                  d.owned k
                  ∙ ap (λ is. is ++ in_hand k y)
                      (sym (collect_none (got_in k) y.log (pushed y.i) refl));
              attempts =
                  collect_one attempted_in y.log (pushed y.i)
                  ∙ ap (λ is. is ++ (y.i ∷ [])) d.attempts;
              small = AreSmall-snoc ptrs e d.small d.at_main.1;
              apart = λ x. omega (arith, d.apart x, occurs-append x ptrs (e ∷ []));
              at_main = tt;
            },
          )
