-- ===== src/Queue/Layout.antt =====
-- The slots of a queue's buffer, and the invariant of `struct queue_s`.
use native.Mathlib.Nat.{mod-add-mod, mod-eq_of_lt, mod-eq-sub-mod, mod_self}
use native.Mathlib.Decide.{dec_lt, ℕ_discrete}
use ohmylib.Prelude.{ℕ, suc, ◌+◌, ◌-◌, ◌*◌, ◌/◌, ◌%◌, ◌^◌, ◌≤◌, ◌<◌, ◌≡◌, ◌≢◌, arith, Disjoint}
use ohmylib.Prelude.{inl, inr, ap, ◌∙◌, ==_true, ==_false, ◌==◌, if◌then◌else◌}
use ohmylib.Queue.State.{Queue}

abbrev pub slot : Queue → ℕ → ℕ
slot q i = q.p_head + i * q.size

-- The index of the slot at a pointer.
abbrev pub index_of : Queue → ℕ → ℕ
index_of q p = (p - q.p_head) / q.size

pub record IsValid (q : Queue) : Type 0 where
  pub sized : 0 < q.size
  pub fits : q.nmemb < 2 ^ 32
  pub tail_at : q.p_tail ≡ slot q (q.nmemb - 1)
  pub read_at : q.p_read ≡ slot q (index_of q q.p_read)
  pub read_in : index_of q q.p_read < q.nmemb
  pub write_at : q.p_write ≡ slot q ((index_of q q.p_read + q.avail) % q.nmemb)
  pub avail_in : q.avail ≤ q.nmemb

-- One past `i`, going round.
abbrev pub next : ℕ → ℕ → ℕ
next c i = (i + 1) % c

pub offset-div : (s i : ℕ) → 0 < s → i * s / s ≡ i
offset-div s i h = grind arith

pub index_of-slot : (q : Queue) (i : ℕ) → 0 < q.size → index_of q (slot q i) ≡ i
index_of-slot q i h = ground (arith, offset-div q.size i)

pub slot-injective : (q : Queue) (i j : ℕ) → 0 < q.size → slot q i ≡ slot q j → i ≡ j
slot-injective q i j h e = cc (index_of-slot q i h, index_of-slot q j h)

pub slot-Disjoint : (q : Queue) (i j : ℕ) → i ≢ j → Disjoint (slot q i) q.size (slot q j) q.size
slot-Disjoint q i j ne = elim (dec_lt i j) [
  | yes lt ↦ inl (grind arith)
  | no ge ↦ inr (grind arith)
]

pub slot-le : (q : Queue) (i n : ℕ) → i < n → slot q i + q.size ≤ q.p_head + n * q.size
slot-le q i n h = grind arith

pub add-mod-ne : (c r k : ℕ) → r < c → suc k < c → (r + suc k) % c ≢ r
add-mod-ne c r k hr hk = elim (dec_lt (r + suc k) c) [
  | yes lt ↦ omega (arith, mod-eq_of_lt lt)
  | no ge ↦ omega (
    arith,
    mod-eq-sub-mod {n = r + suc k} {m = c} (omega arith),
    mod-eq_of_lt {n = r + suc k - c} {m = c} (omega arith),
  )
]

-- Two slots of a window that is shorter than the buffer.
pub mod_ne : (c r k n : ℕ) → r < c → n < c → k < n → (r + n) % c ≢ (r + k) % c
mod_ne c r k n hr hn hk e =
    add-mod-ne c ((r + k) % c) (n - k - 1) (omega arith) (omega arith) (rw mod-add-mod (rw same e))
  where
    same : r + k + suc (n - k - 1) ≡ r + n
    same = omega arith

pub slot-outside :
    (q : Queue) (i p : ℕ)
    → Disjoint p q.size q.p_head (q.nmemb * q.size)
    → i < q.nmemb
    → Disjoint p q.size (slot q i) q.size
slot-outside q i p d h = omega (arith, slot-le q i q.nmemb h)

pub shift_mod : (c r i : ℕ) → (next c r + i) % c ≡ (r + suc i) % c
shift_mod c r i = rw mod-add-mod (ap (λ k. k % c) (omega arith))

pub next-mod : (c r n : ℕ) → next c ((r + n) % c) ≡ (r + (n + 1)) % c
next-mod c r n = rw mod-add-mod (ap (λ k. k % c) (omega arith))

-- How the code moves a pointer on: to the head from the tail, and else by one element.
abbrev pub advance : Queue → ℕ → ℕ
advance q p = if p == q.p_tail then q.p_head else p + q.size

pub advance-slot :
    {q : Queue} (i : ℕ) → IsValid q → i < q.nmemb → advance q (slot q i) ≡ slot q (next q.nmemb i)
advance-slot {q} i v h = elim (ℕ_discrete i (q.nmemb - 1)) [
  | yes e ↦ rw (==_true (slot q i) q.p_tail (rw (v.tail_at, e)), next_of_last e) (omega arith)
  | no ne ↦
      rw
        (
          ==_false (slot q i) q.p_tail
              (λ e. ne (slot-injective q i (q.nmemb - 1) v.sized (e ∙ v.tail_at))),
          mod-eq_of_lt {n = i + 1} {m = q.nmemb} (omega arith),
        )
        (omega arith)
]
  where
    next_of_last : i ≡ q.nmemb - 1 → next q.nmemb i ≡ 0
    next_of_last e = let full : i + 1 ≡ q.nmemb = omega arith in rw (full, mod_self)
