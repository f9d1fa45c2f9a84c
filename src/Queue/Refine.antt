-- ===== src/Queue/Refine.antt =====
-- queue_put and queue_take against the invariant and the list of messages.
use ohmylib.Prelude.{ℕ, suc, ◌+◌, ◌-◌, ◌*◌, ◌%◌, ◌^◌, ◌<◌, ◌≡◌, refl, sym, ap, ap₂, arith, ◌∙◌}
use mathlib.Core.Path.{subst}
use ohmylib.Prelude.{[], ◌∷◌, ◌++◌, memcpy, read_bytes, Disjoint}
use ohmylib.Prelude.{read_bytes-memcpy_self}
use ohmylib.Queue.State.{Shared}
use ohmylib.Queue.Transfer.{queue_put, queue_take}
use ohmylib.Queue.Layout.{
  slot, index_of, next, IsValid, index_of-slot, advance, advance-slot, next-mod, shift_mod,
}
use ohmylib.Queue.Contents.{
  window, contents, window_same, window-memcpy_next, window-memcpy_outside,
}

module _ (s : Shared) (p : ℕ) (v : IsValid s.queue) where
  open s use {queue as q, memory as m}

  abbrev i : ℕ
  i = index_of q q.p_read

  module _ (room : q.avail < q.nmemb) where
    avail-put : (q.avail + 1) % 2 ^ 64 ≡ q.avail + 1
    avail-put = omega arith

    pub queue_put-IsValid : IsValid (queue_put p s).queue
    unfolding queue_put
    queue_put-IsValid = record {
      sized = v.sized;
      fits = v.fits;
      tail_at = v.tail_at;
      read_at = v.read_at;
      read_in = v.read_in;
      write_at =
          ap (advance q) v.write_at
          ∙ advance-slot ((i + q.avail) % q.nmemb) v (omega arith)
          ∙ ap (slot q) (next-mod q.nmemb i q.avail ∙ ap (λ k. (i + k) % q.nmemb) (sym avail-put));
      avail_in = omega arith;
    }

    pub queue_put_lem : contents (queue_put p s) ≡ contents s ++ (read_bytes m p q.size ∷ [])
    unfolding queue_put
    queue_put_lem =
        window_same (queue_put p s).queue q _ i _ refl refl refl
        ∙ ap (λ k. window q (queue_put p s).memory i k) {y = suc q.avail} (omega arith)
        ∙ ap (λ w. window q (memcpy w p q.size m) i (suc q.avail)) v.write_at
        ∙ window-memcpy_next q m i q.avail p v.read_in room

  module _ (some_message : 0 < q.avail) where
    avail-take : (q.avail + 2 ^ 64 - 1) % 2 ^ 64 ≡ q.avail - 1
    avail-take = omega arith

    read-take : (queue_take p s).queue.p_read ≡ slot q (next q.nmemb i)
    unfolding queue_take
    read-take = ap (advance q) v.read_at ∙ advance-slot i v v.read_in

    index-take : index_of q (queue_take p s).queue.p_read ≡ next q.nmemb i
    index-take = ap (index_of q) read-take ∙ index_of-slot q (next q.nmemb i) v.sized

    write-take :
        (index_of q (queue_take p s).queue.p_read + (q.avail + 2 ^ 64 - 1) % 2 ^ 64) % q.nmemb
        ≡ (i + q.avail) % q.nmemb
    write-take =
        ap₂ (λ a b. (a + b) % q.nmemb) index-take avail-take
        ∙ shift_mod q.nmemb i (q.avail - 1)
        ∙ ap (λ k. (i + k) % q.nmemb) {y = q.avail} (omega arith)

    pub queue_take-IsValid : IsValid (queue_take p s).queue
    queue_take-IsValid = record {
      sized = unfold queue_take in v.sized;
      fits = unfold queue_take in v.fits;
      tail_at = unfold queue_take in v.tail_at;
      read_at = unfold queue_take in read-take ∙ ap (slot q) (sym index-take);
      read_in =
          unfold queue_take in subst (λ k. k < q.nmemb) (sym index-take) (omega (arith, v.read_in));
      write_at = unfold queue_take in v.write_at ∙ ap (slot q) (sym write-take);
      avail_in = unfold queue_take in omega arith;
    }

    contents-take :
        Disjoint p q.size q.p_head (q.nmemb * q.size)
        → contents (queue_take p s) ≡ window q m (next q.nmemb i) (q.avail - 1)
    unfolding queue_take
    contents-take d =
        window_same (queue_take p s).queue q _ _ _ same_head same_size same_nmemb
        ∙ ap₂ (window q (queue_take p s).memory) index-take avail-take
        ∙ window-memcpy_outside q m (next q.nmemb i) (q.avail - 1) p q.p_read
            (omega (arith, v.read_in)) d
      where
        same_head : (queue_take p s).queue.p_head ≡ q.p_head
        same_head = refl

        same_size : (queue_take p s).queue.size ≡ q.size
        same_size = refl

        same_nmemb : (queue_take p s).queue.nmemb ≡ q.nmemb
        same_nmemb = refl

    pub queue_take_lem :
        Disjoint p q.size q.p_head (q.nmemb * q.size)
        → contents s ≡ read_bytes (queue_take p s).memory p q.size ∷ contents (queue_take p s)
    queue_take_lem d =
        ap (window q m i) {y = suc (q.avail - 1)} (omega arith)
        ∙ ap₂ ◌∷◌
            (ap (λ a. read_bytes m a q.size) (sym v.read_at)
              ∙ sym (unfold queue_take in read_bytes-memcpy_self m p q.p_read q.size))
            (sym (contents-take d))
