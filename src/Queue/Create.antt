-- ===== src/Queue/Create.antt =====
-- queue_setup, queue_create_static, queue_create and queue_destroy.
-- An allocation's outcome is an argument: the block's address, or `none` for NULL.
use ohmylib.Prelude.{ℕ, ◌+◌, ◌-◌, ◌*◌, ◌%◌, ◌^◌, true, false, ◌||◌, not}
use ohmylib.Prelude.{Option, none, some, List, [], ◌∷◌, ltb, ◌==◌, if◌then◌else◌}
use ohmylib.Queue.State.{Queue, Errno, einval, enomem}

abbrev pub u32 : ℕ → ℕ
u32 n = n % 2 ^ 32

abbrev pub u64 : ℕ → ℕ
u64 n = n % 2 ^ 64

-- The address of the struct and its fields, or NULL with `errno` and the blocks that were freed.
pub data Created : Type 0 where
  created : ℕ → Queue → Created
  refused : Errno → List ℕ → Created

-- `nmemb` and `size` are uint32_t here, and so is the offset of the tail.
unfoldable pub queue_setup : Option ℕ → ℕ → ℕ → ℕ → Option (ℕ × Queue)
queue_setup none p nmemb size = none
queue_setup (some q) p nmemb size = some (
  q,
  record {
    statically_allocated = false;
    nmemb = nmemb;
    size = size;
    avail = 0;
    p_head = p;
    p_tail = p + u32 (u32 (nmemb + 2 ^ 32 - 1) * size);
    p_write = p;
    p_read = p;
  },
)

unfoldable pub queue_create_static : Option ℕ → ℕ → ℕ → ℕ → ℕ → Created
queue_create_static block p count nmemb size =
    if nmemb == 0 || size == 0 || ltb (u64 (nmemb * size)) count
    then refused einval []
    else elim (queue_setup block p (u32 nmemb) (u32 size)) [
      | none ↦ refused enomem []
      | some (q, fields) ↦ created q (record fields { statically_allocated = true })
    ]

-- `calloc` is given the number of bytes that the buffer is asked with.
unfoldable pub queue_create : (ℕ → Option ℕ) → Option ℕ → ℕ → ℕ → Created
queue_create calloc block nmemb size =
    if nmemb == 0 || size == 0 then refused einval [] else elim (calloc (u64 (nmemb * size))) [
      | none ↦ refused enomem []
      | some p ↦ elim (queue_setup block p (u32 nmemb) (u32 size)) [
        | none ↦ refused enomem (p ∷ [])
        | some (q, fields) ↦ created q fields
      ]
    ]

-- The blocks that are freed, in order.
unfoldable pub queue_destroy : Option (ℕ × Queue) → List ℕ
queue_destroy none = []
queue_destroy (some (q, fields)) =
    if not fields.statically_allocated then fields.p_head ∷ q ∷ [] else q ∷ []
