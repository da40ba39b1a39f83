-- ===== src/Kstd/CircularQueue/Examples.antt =====
-- The queue of kernel/kstd/circular_queue.hpp on concrete data.
use native.Mathlib.Omega.{arith}
use nusa_os.Common.{ℕ, ◌≡◌, refl, true, [], ◌∷◌, ◌++◌}
use nusa_os.Kstd.CircularQueue.{CircularQueue, push_back, pop_front}
use nusa_os.Kstd.CircularQueue.Refine.{IsValid, to_list, push_back_lem, pop_front_lem}

-- Full but for one slot, and gone round: 7, 8 in slots 2 and 0.
abbrev wrapped : CircularQueue ℕ
wrapped = record { storage = 8 ∷ 0 ∷ 7 ∷ []; capacity = 3; size = 2; front = 2; back = 0 }

wrapped-IsValid : IsValid wrapped
wrapped-IsValid = record {
  allocated = refl;
  small = omega arith;
  fits = omega arith;
  front_in = λ _. omega arith;
  last = λ _. refl;
}

push_back_lem_example :
    let (done, q') = push_back 0 wrapped 9 in
    (done ≡ true)
    × IsValid q'
    × (q'.capacity ≡ wrapped.capacity)
    × (to_list 0 q' ≡ to_list 0 wrapped ++ (9 ∷ []))
push_back_lem_example = push_back_lem 0 wrapped 9 wrapped-IsValid (omega arith)

pop_front_lem_example :
    let (x, q') = pop_front 0 wrapped in
    IsValid q'
    × (q'.capacity ≡ wrapped.capacity)
    × (q'.size ≡ 1)
    × (to_list 0 wrapped ≡ x ∷ to_list 0 q')
pop_front_lem_example = pop_front_lem 0 wrapped wrapped-IsValid (omega arith)
