-- ===== src/Filesystem/Pipe/Stored.antt =====
-- What the pipe of kernel/filesystem/Pipe.cpp holds after reads and writes.
use nusa_os.Common.{
  ℕ, zero, suc, ◌+◌, ◌-◌, ◌≤◌, ◌≡◌, refl, ◌∙◌, sym, ap, min, List, [], ◌∷◌, ◌++◌, length,
  length-append, take, arith, dec_lt,
}
use mathlib.Core.List.{append_assoc, append-nil}
use nusa_os.Kstd.CircularQueue.{CircularQueue, push_back, pop_front}
use nusa_os.Kstd.CircularQueue.Refine.{
  IsValid, to_list, length-to_list, push_back-full, push_back_lem, pop_front_lem,
}
use nusa_os.Filesystem.Pipe.{pop_bytes, push_bytes}

pub pop_bytes_lem :
    (n : ℕ) (q : CircularQueue ℕ)
    → IsValid q
    → n ≤ q.size
    → let (bytes, q') = pop_bytes n q in
      IsValid q'
      × (q'.capacity ≡ q.capacity)
      × (q'.size ≡ q.size - n)
      × (length bytes ≡ n)
      × (to_list 0 q ≡ bytes ++ to_list 0 q')
pop_bytes_lem zero q v h = (v, refl, omega arith, refl, refl)
pop_bytes_lem (suc n) q v h =
    let (v1, cap1, size1, list1) = pop_front_lem 0 q v (omega arith) in
    let (v2, cap2, size2, len2, list2) = pop_bytes_lem n ((pop_front 0 q).1) v1 (omega arith) in
    (v2, cap2 ∙ cap1, omega arith, ap suc len2, list1 ∙ ap (◌∷◌ ((pop_front 0 q).0)) list2)

push_back-size :
    (q : CircularQueue ℕ) (x : ℕ)
    → to_list 0 ((push_back 0 q x).1) ≡ to_list 0 q ++ (x ∷ [])
    → ((push_back 0 q x).1).size ≡ suc q.size
push_back-size q x h =
    sym (length-to_list 0 ((push_back 0 q x).1))
    ∙ ap length h
    ∙ length-append (to_list 0 q) (x ∷ [])
    ∙ ap (λ n. n + 1) (length-to_list 0 q)
    ∙ omega arith

take-nil : (n : ℕ) → take {A = ℕ} n [] ≡ []
take-nil zero = refl
take-nil (suc n) = refl

append-take-nil : (xs : List ℕ) (n : ℕ) → xs ≡ xs ++ take n []
append-take-nil xs n = sym (ap (◌++◌ xs) (take-nil n) ∙ append-nil xs)

pub push_bytes_lem :
    (bytes : List ℕ) (q : CircularQueue ℕ)
    → IsValid q
    → let (n, q') = push_bytes bytes q in
      IsValid q'
      × (q'.capacity ≡ q.capacity)
      × (n ≡ min (length bytes) (suc (q.capacity - q.size)))
      × (to_list 0 q' ≡ to_list 0 q ++ take (q.capacity - q.size) bytes)
push_bytes_lem [] q v = (v, refl, omega arith, append-take-nil (to_list 0 q) (q.capacity - q.size))
push_bytes_lem (byte ∷ bytes) q v = elim (dec_lt q.size q.capacity) [
  | yes lt ↦
      let (done, v1, cap1, list1) = push_back_lem 0 q byte v lt in
      let (v2, cap2, n2, list2) = push_bytes_lem bytes ((push_back 0 q byte).1) v1 in
      let size1 = push_back-size q byte list1 in
      let room : q.capacity - q.size
          ≡ suc (((push_back 0 q byte).1).capacity - ((push_back 0 q byte).1).size) =
        omega arith in
      rw done (
        v2,
        cap2 ∙ cap1,
        omega arith,
        list2
            ∙ ap
                (λ xs.
                  xs
                  ++ take (((push_back 0 q byte).1).capacity - ((push_back 0 q byte).1).size) bytes)
                list1
            ∙ append_assoc (to_list 0 q) (byte ∷ [])
                (take (((push_back 0 q byte).1).capacity - ((push_back 0 q byte).1).size) bytes)
            ∙ ap (λ n. to_list 0 q ++ take n (byte ∷ bytes)) (sym room),
      )
  | no ge ↦ rw (push_back-full 0 q byte (omega (arith, v.fits))) (
    v,
    refl,
    omega (arith, v.fits),
    append-take-nil (to_list 0 q) 0
        ∙ ap (λ n. to_list 0 q ++ take n (byte ∷ bytes)) {x = 0} {y = q.capacity - q.size}
            (omega arith),
  )
]
