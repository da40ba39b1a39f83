-- ===== src/Kstd/CircularQueue.antt =====
-- kernel/kstd/circular_queue.hpp: a queue of fixed capacity in an array that it goes round.
-- `nil` is what `kcalloc` leaves in a slot. The elements are values, so their destructors are left
-- out, and so are the moves, which pass the array on.
pub mod Contents
pub mod Refine
mod Examples
use nusa_os.Common.{
  ℕ, ◌+◌, ◌%◌, Bool, true, false, List, [], ◌∷◌, ◌==◌, if◌then◌else◌, get_or, set, replicate, take,
  ◌++◌, ◌-◌, add_word, sub_word,
}

pub record CircularQueue {ℓ} (A : Type ℓ) : Type ℓ where
  pub storage : List A
  pub capacity : ℕ
  pub size : ℕ
  pub front : ℕ
  pub back : ℕ

module _ {ℓ} {A : Type ℓ} (nil : A) where
  unfoldable pub make : ℕ → CircularQueue A
  make capacity = record {
    storage = replicate capacity nil;
    capacity = capacity;
    size = 0;
    front = 0;
    back = 0;
  }

  -- False if the queue is full.
  unfoldable pub push_back : CircularQueue A → A → Bool × CircularQueue A
  push_back q elem =
      let back = if q.size == 0 then 0 else add_word q.back 1 % q.capacity in
      if q.size == q.capacity then (false, q) else (
        true,
        record q {
          storage = set q.storage back elem;
          size = add_word q.size 1;
          front = if q.size == 0 then 0 else q.front;
          back = back;
        },
      )

  -- There is no test for an empty queue: there `size` wraps round.
  unfoldable pub pop_front : CircularQueue A → A × CircularQueue A
  pop_front q =
      let size = sub_word q.size 1 in
      (
        get_or q.storage q.front nil,
        if size == 0
            then record q { size = size; front = 0; back = 0 }
            else record q { size = size; front = add_word q.front 1 % q.capacity },
      )

  unfoldable pub pop_back : CircularQueue A → A × CircularQueue A
  pop_back q =
      let size = sub_word q.size 1 in
      (
        get_or q.storage q.back nil,
        if size == 0 then record q { size = size; front = 0; back = 0 } else record q {
          size = size;
          back = if q.back == 0 then sub_word q.capacity 1 else sub_word q.back 1;
        },
      )

  -- `front()` and `back()`
  abbrev pub first : CircularQueue A → A
  first q = get_or q.storage q.front nil

  abbrev pub last : CircularQueue A → A
  last q = get_or q.storage q.back nil

  -- The copying `operator=`: the first `size` slots are copied, wherever the front is.
  pub assigned : CircularQueue A → CircularQueue A
  assigned q = record q { storage = take q.size q.storage ++ replicate (q.capacity - q.size) nil }

-- The copy constructor: as the copying assignment, but the new array has only `size` slots.
pub copied {ℓ} : {A : Type ℓ} → CircularQueue A → CircularQueue A
copied q = record q { storage = take q.size q.storage }

unfoldable pub is_empty {ℓ} : {A : Type ℓ} → CircularQueue A → Bool
is_empty q = q.size == 0
