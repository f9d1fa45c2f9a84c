-- ===== src/Examples/Multithreaded/Receives.antt =====
-- The turns in which a reader receives, prints, or is created.
use ohmylib.Prelude.{
  ℕ, ◌*◌, ◌≡◌, refl, sym, ap, ◌∙◌, arith, Bool, true, false, inl, inr, none, List, [], ◌∷◌, ◌++◌,
  append_assoc, if◌then◌else◌, Disjoint, Memory, read_bytes, read_bytes-memcpy-Disjoint,
}
use mathlib.Core.List.{map, map-append}
use ohmylib.Queue.State.{queue_is_empty_locked}
use ohmylib.Queue.Deadline.{Timespec}
use ohmylib.Queue.Transfer.{Outcome, queue_take}
use ohmylib.Examples.Vector.{Values}
use ohmylib.Examples.Queue.Keeping.{Keeps-take, empty_lem}
use ohmylib.Examples.Multithreaded.State.{
  Reader, first, second, is_reader, Event, got, got_nothing, MainAt, looping, in_queue_send,
  at_queue_empty_wait, returned, ReaderAt, running, in_queue_recv, received, hand, Process,
  set_reader,
}
use ohmylib.Examples.Multithreaded.Handlers.{after_recv, after_print}
use ohmylib.Examples.Multithreaded.Outcomes.{Transfers}
use ohmylib.Examples.Multithreaded.Delivery.{
  Delivers, AtMain, collect, pushed_in, attempted_in, got_in, indices, to_list, collect_one,
  collect_none, in_hand, taken_by-append, indices-append,
}
use ohmylib.Examples.Multithreaded.Hands.{hand-set, hand-drop, hand_same, both-set, both-drop}
use ohmylib.Examples.Multithreaded.Sends.{Delivered}

-- main's place is as good without the first pointer and with other writes than to its variable.
AtMain-take :
    (n : ℕ) (main : MainAt) (vals : Values) (m m' : Memory) (i p v : ℕ) (rest : List ℕ)
    → read_bytes m' p 8 ≡ read_bytes m p 8
    → AtMain n main vals m i p (v ∷ rest)
    → AtMain n main vals m' i p rest
AtMain-take n looping vals m m' i p v rest same at = tt
AtMain-take n (in_queue_send e ts) vals m m' i p v rest same at = (at.0, at.1, same ∙ at.2)
AtMain-take n at_queue_empty_wait vals m m' i p v rest same at = at
AtMain-take n (returned z) vals m m' i p v rest same at = tt

-- An element passes from the front of one list to the end of another, or nothing does.
passes :
    (vals : Values) (c : Bool) (is : List ℕ) (e : ℕ) (ps : List ℕ)
    → is ++ map vals ((if c then e ∷ [] else []) ++ ps)
      ≡ (is ++ (if c then vals e ∷ [] else [])) ++ map vals ps
passes vals true is e ps = sym (append_assoc is (vals e ∷ []) (map vals ps))
passes vals false is e ps = sym (append_assoc is [] (map vals ps))

arrives :
    (vals : Values) (c : Bool) (is : List ℕ) (e : ℕ) (ps : List ℕ)
    → (is ++ map vals ps) ++ (if c then vals e ∷ [] else [])
      ≡ is ++ map vals (ps ++ (if c then e ∷ [] else []))
arrives vals true is e ps =
    append_assoc is (map vals ps) (vals e ∷ [])
    ∙ ap (λ js. is ++ js) (sym (map-append vals ps (e ∷ [])))
arrives vals false is e ps =
    append_assoc is (map vals ps) [] ∙ ap (λ js. is ++ js) (sym (map-append vals ps []))

-- Something is printed that says nothing of an element.
pub logs-Delivers :
    (n b p_main : ℕ) (y : Process) (ev : Event) (ptrs : List ℕ) (taken : List (Reader × ℕ))
    → pushed_in ev ≡ []
    → attempted_in ev ≡ []
    → ((j : Reader) → got_in j ev ≡ [])
    → Delivers n b p_main y ptrs taken
    → Delivers n b p_main (record y { log = y.log ++ (ev ∷ []) }) ptrs taken
logs-Delivers n b p_main y ev ptrs taken pushed_none attempted_none got_none d = record {
  keeps = d.keeps;
  order = collect_none pushed_in y.log ev pushed_none ∙ d.order;
  owned = λ j.
      d.owned j
      ∙ ap (λ is. is ++ in_hand j y) (sym (collect_none (got_in j) y.log ev (got_none j)));
  attempts = collect_none attempted_in y.log ev attempted_none ∙ d.attempts;
  small = d.small;
  apart = d.apart;
  at_main = d.at_main;
}

module _ (n b p_main : ℕ) (y : Process) (k : Reader) where
  module _ (ptrs : List ℕ) (taken : List (Reader × ℕ)) (d : Delivers n b p_main y ptrs taken) where
    -- A reader moves on without another pointer.
    pub moves-Delivers :
        (r : ReaderAt)
        → hand r ≡ hand (y.readers k)
        → Delivers n b p_main (record y { readers = set_reader k r y.readers }) ptrs taken
    moves-Delivers r same = record {
      keeps = d.keeps;
      order = d.order;
      owned = λ j.
          d.owned j
          ∙ ap (λ h. collect (got_in j) y.log ++ map y.values (to_list h))
              (sym (hand_same y.readers r k j same));
      attempts = d.attempts;
      small = d.small;
      apart = λ x.
          rw (hand_same y.readers r k first same, hand_same y.readers r k second same) (d.apart x);
      at_main = d.at_main;
    }

    pub after_print-Delivers :
        (e : ℕ) → y.readers k ≡ received e → Delivers n b p_main (after_print y k e) ptrs taken
    unfolding after_print
    after_print-Delivers e at = record {
      keeps = d.keeps;
      order = collect_none pushed_in y.log (got k (y.values e)) refl ∙ d.order;
      owned = λ j.
          let said = collect (got_in j) y.log in
          d.owned j
          ∙ ap (λ ps. said ++ map y.values ps) (hand-drop y.readers running k j e (ap hand at) refl)
          ∙ passes y.values (is_reader j k) said e
              (to_list (hand (set_reader k running y.readers j)))
          ∙ ap (λ is. is ++ in_hand j (record y { readers = set_reader k running y.readers }))
              (sym (collect_one (got_in j) y.log (got k (y.values e))));
      attempts = collect_none attempted_in y.log (got k (y.values e)) refl ∙ d.attempts;
      small = d.small;
      apart = λ x.
          let before = d.apart x in
          let moved = both-drop y.readers running x k e (ap hand at) refl in ground arith;
      at_main = d.at_main;
    }

  -- A turn of queue_recv by a reader with nothing in its hand.
  pub after_recv-Delivered :
      (ptrs : List ℕ) (taken : List (Reader × ℕ)) (p : ℕ) (ts : Timespec) (o : Outcome)
      → Delivers n b p_main y ptrs taken
      → Disjoint p 8 b (n * 8)
      → Disjoint p 8 p_main 8
      → hand (y.readers k) ≡ none
      → Transfers queue_is_empty_locked (queue_take p) y.shared o
      → Delivered n b p_main (after_recv y k p ts o)
  unfolding after_recv
  after_recv-Delivered ptrs taken p ts o d outside apart free (inl (replied, same)) =
      rw (replied, same) (ptrs, taken, moves-Delivers ptrs taken d (in_queue_recv ts) (sym free))
  after_recv-Delivered ptrs taken p ts o d outside apart free (inr (inl (errno, replied, same))) =
      rw (replied, same)
        (
          ptrs,
          taken,
          logs-Delivers n b p_main (record y { readers = set_reader k running y.readers })
              (got_nothing k) ptrs taken refl refl (λ j. refl)
              (moves-Delivers ptrs taken d running (sym free)),
        )
  after_recv-Delivered [] taken p ts o d outside apart free (inr (inr (more, replied, took))) =
      absurd (cc (empty_lem b n y.shared d.keeps))
  after_recv-Delivered (v ∷ rest) taken p ts o d outside apart free
        (inr (inr (more, replied, took))) =
      let t = queue_take p y.shared in
      let (kept, loaded) = Keeps-take b n y.shared v rest p d.keeps outside d.small.0 in
      let apart_here : Disjoint p y.shared.queue.size p_main 8 = rw d.keeps.sized apart in
      let frame : read_bytes t.memory p_main 8 ≡ read_bytes y.shared.memory p_main 8 =
        unfold queue_take in
        read_bytes-memcpy-Disjoint y.shared.memory p y.shared.queue.p_read y.shared.queue.size
          p_main 8 apart_here in
      rw (replied, took, loaded)
        (
          rest,
          taken ++ ((k, y.values v) ∷ []),
          record {
            keeps = kept;
            order =
                d.order
                ∙ sym (append_assoc (indices taken) (y.values v ∷ []) (map y.values rest))
                ∙ ap (λ is. is ++ map y.values rest)
                    (sym (indices-append taken ((k, y.values v) ∷ [])));
            owned = λ j.
                let said = collect (got_in j) y.log in
                let in_hand_before = to_list (hand (y.readers j)) in
                taken_by-append j taken ((k, y.values v) ∷ [])
                ∙ ap (λ is. is ++ (if is_reader j k then y.values v ∷ [] else [])) (d.owned j)
                ∙ arrives y.values (is_reader j k) said v in_hand_before
                ∙ ap (λ ps. said ++ map y.values ps)
                    (sym (hand-set y.readers (received v) k j free));
            attempts = d.attempts;
            small = d.small.1;
            apart = λ x.
                let before = d.apart x in
                let moved = both-set y.readers (received v) x k free in ground arith;
            at_main =
                AtMain-take n y.main y.values y.shared.memory t.memory y.i p_main v rest frame
                  d.at_main;
          },
        )
