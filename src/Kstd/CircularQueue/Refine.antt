-- ===== src/Kstd/CircularQueue/Refine.antt =====
-- The circular queue of kernel/kstd/circular_queue.hpp refines a bounded list.
use native.Mathlib.Nat.{mod-eq_of_lt, mod-add-mod, mod-lt}
use nusa_os.Common.{
  ℕ, suc, ◌+◌, ◌-◌, ◌%◌, ◌≤◌, ◌<◌, ◌≡◌, refl, ◌∙◌, sym, ap, true, false, List, [], ◌∷◌, ◌++◌,
  length, get_or, set, length-replicate, length-set, get_or-set_self, add_word, add_word-exact,
  sub_word-exact, word_mod, ◌==◌, if◌then◌else◌, arith, ℕ_discrete, Bool-cases, inl, inr,
}
use nusa_os.Kstd.CircularQueue.{CircularQueue, make, push_back, pop_front, pop_back}
use nusa_os.Kstd.CircularQueue.Contents.{
  places, length-places, places-snoc, places-set, places-next, wrap_once,
}

module _ {ℓ} {A : Type ℓ} (nil : A) where
  -- Oldest first.
  abbrev pub to_list : CircularQueue A → List A
  to_list q = places nil q.storage q.capacity q.front 0 q.size

  pub length-to_list : (q : CircularQueue A) → length (to_list q) ≡ q.size
  length-to_list q = length-places nil q.storage q.capacity q.front 0 q.size

pub record IsValid {ℓ} {A : Type ℓ} (q : CircularQueue A) : Type ℓ where
  pub allocated : length q.storage ≡ q.capacity
  pub small : q.capacity < word_mod
  pub fits : q.size ≤ q.capacity
  pub front_in : 0 < q.capacity → q.front < q.capacity
  pub last : 0 < q.size → q.back ≡ (q.front + (q.size - 1)) % q.capacity

module _ {ℓ} {A : Type ℓ} (nil : A) where
  pub make-IsValid : (capacity : ℕ) → capacity < word_mod → IsValid (make nil capacity)
  unfolding make
  make-IsValid capacity h = record {
    allocated = length-replicate capacity nil;
    small = h;
    fits = omega arith;
    front_in = λ pos. pos;
    last = λ pos. absurd (omega arith);
  }

  -- A full queue takes nothing.
  pub push_back-full :
      (q : CircularQueue A) (x : A) → q.size ≡ q.capacity → push_back nil q x ≡ (false, q)
  unfolding push_back
  push_back-full q x e = ground arith

  push_first :
      (q : CircularQueue A) (x : A)
      → q.size ≡ 0
      → 0 < q.capacity
      → push_back nil q x
        ≡ (true, record q { storage = set q.storage 0 x; size = 1; front = 0; back = 0 })
  unfolding push_back add_word
  push_first q x e pos = ground arith

  next_slot :
      (q : CircularQueue A)
      → IsValid q
      → 0 < q.size
      → add_word q.back 1 % q.capacity ≡ (q.front + q.size) % q.capacity
  next_slot q v pos =
      let last = v.last pos in
      let lt : q.back < q.capacity =
        omega (
          arith,
          v.fits,
          mod-lt (q.front + (q.size - 1)) {m = q.capacity} (omega (arith, v.fits)),
        ) in
      ap (λ j. j % q.capacity) (add_word-exact q.back 1 (omega (arith, v.small)))
      ∙ ap (λ j. (j + 1) % q.capacity) last
      ∙ mod-add-mod (q.front + (q.size - 1)) q.capacity 1
      ∙ ap (λ j. j % q.capacity) (omega arith)

  push_next :
      (q : CircularQueue A) (x : A)
      → IsValid q
      → 0 < q.size
      → q.size < q.capacity
      → push_back nil q x ≡ (
        true,
        record q {
          storage = set q.storage ((q.front + q.size) % q.capacity) x;
          size = suc q.size;
          back = (q.front + q.size) % q.capacity;
        },
      )
  unfolding push_back
  push_next q x v pos lt =
      let sum = add_word-exact q.size 1 (omega (arith, v.small)) in
      let slot = next_slot q v pos in ground arith

  -- The element written into the next slot is the last one.
  places-push :
      (storage : List A) (cap front n : ℕ) (x : A)
      → length storage ≡ cap
      → front < cap
      → n < cap
      → places nil (set storage ((front + n) % cap) x) cap front 0 (suc n)
        ≡ places nil storage cap front 0 n ++ (x ∷ [])
  places-push storage cap front n x len f lt =
      let slot : (front + n) % cap < length storage =
        omega (arith, mod-lt (front + n) {m = cap} (omega arith)) in
      let stored = set storage ((front + n) % cap) x in
      places-snoc nil stored cap front 0 n
      ∙ ap (λ j. places nil stored cap front 0 n ++ (get_or stored ((front + j) % cap) nil ∷ []))
          {x = 0 + n} {y = n} (omega arith)
      ∙ ap (λ y. places nil stored cap front 0 n ++ (y ∷ []))
          (get_or-set_self storage ((front + n) % cap) x nil slot)
      ∙ ap (λ ys. ys ++ (x ∷ [])) (places-set nil storage cap front 0 n n x f lt (omega arith))

  -- A push into a queue with room puts the element at the end and keeps the queue valid.
  pub push_back_lem :
      (q : CircularQueue A) (x : A)
      → IsValid q
      → q.size < q.capacity
      → let (done, q') = push_back nil q x in
        (done ≡ true)
        × IsValid q'
        × (q'.capacity ≡ q.capacity)
        × (to_list nil q' ≡ to_list nil q ++ (x ∷ []))
  push_back_lem q x v lt = elim (ℕ_discrete q.size 0) [
    | yes none' ↦
        rw (push_first q x none' (omega arith), none')
          (
            refl,
            record {
              allocated = length-set q.storage 0 x ∙ v.allocated;
              small = v.small;
              fits = omega arith;
              front_in = λ pos. pos;
              last = λ pos. sym (mod-eq_of_lt (omega arith));
            },
            refl,
            ap (λ j. get_or (set q.storage 0 x) j nil ∷ []) (mod-eq_of_lt (omega arith))
                ∙ ap (λ y. y ∷ []) (get_or-set_self q.storage 0 x nil (omega (arith, v.allocated))),
          )
    | no some' ↦
        let pos : 0 < q.size = omega arith in
        rw (push_next q x v pos lt) (
          refl,
          record {
            allocated = length-set q.storage ((q.front + q.size) % q.capacity) x ∙ v.allocated;
            small = v.small;
            fits = lt;
            front_in = v.front_in;
            last = λ _.
                ap (λ j. (q.front + j) % q.capacity) {x = q.size} {y = suc q.size - 1}
                  (omega arith);
          },
          refl,
          places-push q.storage q.capacity q.front q.size x v.allocated (v.front_in (omega arith))
              lt,
        )
  ]

  pop_front-eq :
      (q : CircularQueue A)
      → 0 < q.size
      → q.size < word_mod
      → q.front + 1 < word_mod
      → pop_front nil q ≡ (
        get_or q.storage q.front nil,
        if q.size - 1 == 0
            then record q { size = q.size - 1; front = 0; back = 0 }
            else record q { size = q.size - 1; front = (q.front + 1) % q.capacity },
      )
  unfolding pop_front
  pop_front-eq q pos small room =
      rw (sub_word-exact q.size 1 small pos, add_word-exact q.front 1 room, pop_front)

  -- `pop_front` of a queue that is not empty takes the oldest element and keeps the queue valid.
  pub pop_front_lem :
      (q : CircularQueue A)
      → IsValid q
      → 0 < q.size
      → let (x, q') = pop_front nil q in
        IsValid q'
        × (q'.capacity ≡ q.capacity)
        × (q'.size ≡ q.size - 1)
        × (to_list nil q ≡ x ∷ to_list nil q')
  pop_front_lem q v pos =
      let front : q.front < q.capacity = v.front_in (omega (arith, v.fits)) in
      let e = pop_front-eq q pos (omega (arith, v.fits, v.small)) (omega (arith, v.small)) in
      let head =
        ap (places nil q.storage q.capacity q.front 0) {x = q.size} {y = suc (q.size - 1)}
          (omega arith)
        ∙ ap (λ j. get_or q.storage j nil ∷ places nil q.storage q.capacity q.front 1 (q.size - 1))
            (ap (λ j. j % q.capacity) {x = q.front + 0} {y = q.front} (omega arith)
              ∙ mod-eq_of_lt front) in
      elim (Bool-cases (q.size - 1 == 0)) [
        | inl last ↦
            let zero' : q.size - 1 ≡ 0 = ground arith in
            rw (e, last)
              (
                record {
                  allocated = v.allocated;
                  small = v.small;
                  fits = omega (arith, v.fits);
                  front_in = λ p. p;
                  last = λ p. absurd (omega arith);
                },
                refl,
                refl,
                head
                    ∙ ap
                        (λ n.
                          get_or q.storage q.front nil
                          ∷ places nil q.storage q.capacity q.front 1 n)
                        zero'
                    ∙ ap (λ n. get_or q.storage q.front nil ∷ places nil q.storage q.capacity 0 0 n)
                        (sym zero'),
              )
        | inr more ↦
            rw (e, more)
              (
                record {
                  allocated = v.allocated;
                  small = v.small;
                  fits = omega (arith, v.fits);
                  front_in = λ p. mod-lt (q.front + 1) p;
                  last = λ p.
                      v.last pos
                      ∙ sym (
                          mod-add-mod (q.front + 1) q.capacity (q.size - 1 - 1)
                          ∙ ap (λ j. j % q.capacity) (omega arith));
                },
                refl,
                refl,
                head
                    ∙ ap (◌∷◌ (get_or q.storage q.front nil))
                        (sym (places-next nil q.storage q.capacity q.front 0 (q.size - 1))),
              )
      ]

  pop_back-eq :
      (q : CircularQueue A)
      → IsValid q
      → 0 < q.size
      → pop_back nil q ≡ (
        get_or q.storage q.back nil,
        if q.size - 1 == 0 then record q { size = q.size - 1; front = 0; back = 0 } else record q {
          size = q.size - 1;
          back = if q.back == 0 then q.capacity - 1 else q.back - 1;
        },
      )
  unfolding pop_back
  pop_back-eq q v pos =
      let size = sub_word-exact q.size 1 (omega (arith, v.fits, v.small)) pos in
      let cap = sub_word-exact q.capacity 1 v.small (omega (arith, v.fits)) in
      let lt : q.back < q.capacity = omega (
        arith,
        v.last pos,
        mod-lt (q.front + (q.size - 1)) {m = q.capacity} (omega (arith, v.fits)),
      ) in
      elim (Bool-cases (q.back == 0)) [
        | inl zero' ↦ rw (size, cap, zero', pop_back)
        | inr more ↦
            rw (
              size,
              sub_word-exact q.back 1 (omega (arith, v.small)) (ground arith),
              more,
              pop_back,
            )
      ]

  -- Before the slot of the n-th place is that of the one before.
  slot_before :
      (front cap n : ℕ)
      → front < cap
      → n + 1 < cap
      → (if (front + (n + 1)) % cap == 0 then cap - 1 else (front + (n + 1)) % cap - 1)
        ≡ (front + n) % cap
  slot_before front cap n f lt =
      let a = wrap_once (front + n) cap (omega arith) in
      let b = wrap_once (front + (n + 1)) cap (omega arith) in ground arith

  -- `pop_back` of a queue that is not empty takes the youngest element and keeps the queue valid.
  pub pop_back_lem :
      (q : CircularQueue A)
      → IsValid q
      → 0 < q.size
      → let (x, q') = pop_back nil q in
        IsValid q'
        × (q'.capacity ≡ q.capacity)
        × (q'.size ≡ q.size - 1)
        × (to_list nil q ≡ to_list nil q' ++ (x ∷ []))
  pop_back_lem q v pos =
      let tail =
        ap (places nil q.storage q.capacity q.front 0) {x = q.size} {y = suc (q.size - 1)}
          (omega arith)
        ∙ places-snoc nil q.storage q.capacity q.front 0 (q.size - 1)
        ∙ ap
            (λ j.
              places nil q.storage q.capacity q.front 0 (q.size - 1)
              ++ (get_or q.storage j nil ∷ []))
            (ap (λ j. (q.front + j) % q.capacity) {x = 0 + (q.size - 1)} {y = q.size - 1}
                (omega arith)
              ∙ sym (v.last pos)) in
      elim (Bool-cases (q.size - 1 == 0)) [
        | inl last ↦
            let zero' : q.size - 1 ≡ 0 = ground arith in
            rw (pop_back-eq q v pos, last)
              (
                record {
                  allocated = v.allocated;
                  small = v.small;
                  fits = omega (arith, v.fits);
                  front_in = λ p. p;
                  last = λ p. absurd (omega arith);
                },
                refl,
                refl,
                tail
                    ∙ ap
                        (λ n.
                          places nil q.storage q.capacity q.front 0 n
                          ++ (get_or q.storage q.back nil ∷ []))
                        zero'
                    ∙ ap
                        (λ n.
                          places nil q.storage q.capacity 0 0 n
                          ++ (get_or q.storage q.back nil ∷ []))
                        (sym zero'),
              )
        | inr more ↦
            let two : 0 < q.size - 1 = ground arith in
            let back =
              ap (λ b. if b == 0 then q.capacity - 1 else b - 1)
                (v.last pos
                  ∙ ap (λ j. (q.front + j) % q.capacity) {x = q.size - 1} {y = q.size - 1 - 1 + 1}
                      (omega arith))
              ∙ slot_before q.front q.capacity (q.size - 1 - 1) (v.front_in (omega (arith, v.fits)))
                  (omega (arith, v.fits)) in
            rw (pop_back-eq q v pos, more)
              (
                record {
                  allocated = v.allocated;
                  small = v.small;
                  fits = omega (arith, v.fits);
                  front_in = v.front_in;
                  last = λ _. back;
                },
                refl,
                refl,
                tail,
              )
      ]
