-- ===== src/Memory/Buddy/Linked.antt =====
-- The links of the free lists of kernel/memory/BuddyZone.cpp hold the lists of Buddy.antt, and the
-- writes to the page descriptors do to the links what the model does to the lists.
use nusa_os.Common.{
  eq_of_some, subst, ==_refl, ==_ne, Bool-cases, ℕ, ◌<◌, ◌≤◌, ◌≡◌, ◌≢◌, refl, sym, ap, ◌∙◌, true,
  false, List, [], ◌∷◌, ◌==◌, arith, ℕ_discrete, inl, inr, Option, none, some, ok,
}
use nusa_os.Memory.Buddy.{remove}
use nusa_os.Memory.Buddy.Blocks.{count, count-remove}
use nusa_os.Memory.Buddy.Links.{
  Link, FreeList, write_prev, write_next, init_block, put_only, drop_first, push_first, is_block,
  is_none, unlink, remove_from_freelist, head, Linked, Holds,
}

Linked-frame :
    (pages pages' : ℕ → Link) (before : Option ℕ) (xs : List ℕ)
    → ((x : ℕ) → 0 < count x xs → pages' x ≡ pages x)
    → Linked pages before xs
    → Linked pages' before xs
unfolding Linked count
Linked-frame pages pages' before [] same linked = tt
Linked-frame pages pages' before (x ∷ xs) same (prev, next, rest) =
    let here = same x (ground arith) in
    (
      ap (λ (l : Link). l.prev) here ∙ prev,
      ap (λ (l : Link). l.next) here ∙ next,
      Linked-frame pages pages' (some x) xs (λ y h. same y (ground arith)) rest,
    )

write_prev-other :
    (i : Option ℕ) (value : Option ℕ) (pages : ℕ → Link) (j : ℕ)
    → i ≢ some j
    → write_prev i value pages j ≡ pages j
unfolding write_prev
write_prev-other none value pages j ne = refl
write_prev-other (some i) value pages j ne = rw (==_ne j i (λ e. ne (ap some (sym e)))) refl

write_next-other :
    (i : Option ℕ) (value : Option ℕ) (pages : ℕ → Link) (j : ℕ)
    → i ≢ some j
    → write_next i value pages j ≡ pages j
unfolding write_next
write_next-other none value pages j ne = refl
write_next-other (some i) value pages j ne = rw (==_ne j i (λ e. ne (ap some (sym e)))) refl

write_prev-same :
    (value : Option ℕ) (pages : ℕ → Link) (j : ℕ)
    → write_prev (some j) value pages j ≡ record { next = (pages j).next; prev = value }
unfolding write_prev
write_prev-same value pages j = rw (==_refl j) refl

write_next-same :
    (value : Option ℕ) (pages : ℕ → Link) (j : ℕ)
    → write_next (some j) value pages j ≡ record { next = value; prev = (pages j).prev }
unfolding write_next
write_next-same value pages j = rw (==_refl j) refl

write_next-prev :
    (i : Option ℕ) (value : Option ℕ) (pages : ℕ → Link) (j : ℕ)
    → (write_next i value pages j).prev ≡ (pages j).prev
unfolding write_next
write_next-prev none value pages j = refl
write_next-prev (some i) value pages j = elim (Bool-cases (j == i)) [
  | inl e ↦ rw (e) refl
  | inr e ↦ rw (e) refl
]

write_prev-next :
    (i : Option ℕ) (value : Option ℕ) (pages : ℕ → Link) (j : ℕ)
    → (write_prev i value pages j).next ≡ (pages j).next
unfolding write_prev
write_prev-next none value pages j = refl
write_prev-next (some i) value pages j = elim (Bool-cases (j == i)) [
  | inl e ↦ rw (e) refl
  | inr e ↦ rw (e) refl
]

head-listed : (xs : List ℕ) (n : ℕ) → head xs ≡ some n → 0 < count n xs
unfolding head count
head-listed [] n e = cc
head-listed (x ∷ xs) n e = ground (arith, eq_of_some e)

-- The neighbours of a listed block are listed.
next-listed :
    (pages : ℕ → Link) (before : Option ℕ) (xs : List ℕ) (x n : ℕ)
    → Linked pages before xs
    → 0 < count x xs
    → (pages x).next ≡ some n
    → 0 < count n xs
unfolding Linked count
next-listed pages before [] x n linked h e = absurd (omega (arith, h))
next-listed pages before (y ∷ ys) x n (prev, next, rest) h e = elim (ℕ_discrete y x) [
  | yes same ↦
      let found = head-listed ys n (sym next ∙ ap (λ z. (pages z).next) same ∙ e) in
      omega (arith, found)
  | no ne ↦
      let found = next-listed pages (some y) ys x n rest (ground arith) e in omega (arith, found)
]

prev-listed :
    (pages : ℕ → Link) (before : Option ℕ) (y : ℕ) (ys : List ℕ) (x p : ℕ)
    → Linked pages before (y ∷ ys)
    → 0 < count x ys
    → (pages x).prev ≡ some p
    → 0 < count p (y ∷ ys)
unfolding Linked count
prev-listed pages before y [] x p linked h e = absurd (omega (arith, h))
prev-listed pages before y (z ∷ zs) x p (prev, next, rest) h e = elim (ℕ_discrete z x) [
  | yes same ↦
      let own : y ≡ p = eq_of_some (sym rest.0 ∙ ap (λ w. (pages w).prev) same ∙ e) in
      ground (arith, own)
  | no ne ↦
      let found = prev-listed pages (some y) z zs x p rest (ground arith) e in omega (arith, found)
]

unlink-eq :
    (pages : ℕ → Link) (x : ℕ) (p n : Option ℕ)
    → (pages x).prev ≡ p
    → (pages x).next ≡ n
    → unlink pages x ≡ write_next p n (write_prev n p pages)
unfolding unlink
unlink-eq pages x p n ep en = rw (ep, en) refl

-- The first block of a stretch is taken out.
unlink-first :
    (pages : ℕ → Link) (before : Option ℕ) (x : ℕ) (ys : List ℕ)
    → Linked pages before (x ∷ ys)
    → ((y : ℕ) → count y (x ∷ ys) ≤ 1)
    → ((y : ℕ) → 0 < count y (x ∷ ys) → before ≢ some y)
    → Linked (unlink pages x) before ys
unfolding Linked count head
unlink-first pages before x [] linked once outside = tt
unlink-first pages before x (z ∷ zs) (prev, next, (prev', next', rest)) once outside =
    let eq = unlink-eq pages x before (some z) prev next in
    let middle : ℕ → Link = write_prev (some z) before pages in
    let apart : (w : ℕ) → 0 < count w zs → some z ≢ some w =
      λ w h e. absurd (ground (arith, once w, eq_of_some e, h)) in
    subst (λ f. Linked f before (z ∷ zs)) (sym eq)
      (
        write_next-prev before (some z) middle z
            ∙ ap (λ (l : Link). l.prev) (write_prev-same before pages z),
        ap (λ (l : Link). l.next)
              (write_next-other before (some z) middle z (outside z (ground arith)))
            ∙ write_prev-next (some z) before pages z
            ∙ next',
        Linked-frame pages (write_next before (some z) middle) (some z) zs
            (λ w h.
              write_next-other before (some z) middle w (outside w (ground (arith, h)))
              ∙ write_prev-other (some z) before pages w (apart w h))
            rest,
      )

unlink-prev :
    (pages : ℕ → Link) (x y : ℕ)
    → (pages x).next ≢ some y
    → (unlink pages x y).prev ≡ (pages y).prev
unfolding unlink
unlink-prev pages x y ne =
    write_next-prev (pages x).prev (pages x).next (write_prev (pages x).next (pages x).prev pages) y
    ∙ ap (λ (l : Link). l.prev) (write_prev-other (pages x).next (pages x).prev pages y ne)

-- The block before the one taken out is linked to the one after it.
next_after :
    (pages : ℕ → Link) (y : ℕ) (ys : List ℕ) (x : ℕ)
    → (pages y).next ≡ head ys
    → Linked pages (some y) ys
    → 0 < count x ys
    → count y ys ≡ 0
    → (unlink pages x y).next ≡ head (remove x ys)
unfolding Linked count remove unlink head
next_after pages y [] x next linked listed gone = absurd (omega (arith, listed))
next_after pages y (z ∷ zs) x next (prev', next', rest) listed gone =
    let middle : ℕ → Link = write_prev (pages x).next (pages x).prev pages in
    elim (ℕ_discrete z x) [
      | yes e ↦
          let own : (pages x).prev ≡ some y = ap (λ w. (pages w).prev) (sym e) ∙ prev' in
          rw (e, ==_refl x)
            (ap (λ p. (write_next p (pages x).next middle y).next) own
              ∙ ap (λ (l : Link). l.next) (write_next-same (pages x).next middle y)
              ∙ ap (λ w. (pages w).next) (sym e)
              ∙ next')
      | no ne ↦
          let apart : (pages x).prev ≢ some y = λ e. absurd (
            omega (
              arith,
              gone,
              prev-listed pages (some y) z zs x y (prev', next', rest) (ground arith) e,
            )) in
          rw (==_ne z x ne) (
            ap (λ (l : Link). l.next)
              (write_next-other (pages x).prev (pages x).next middle y apart)
            ∙ write_prev-next (pages x).next (pages x).prev pages y
            ∙ next)
    ]

-- A block is taken out anywhere in a stretch.
unlink-Linked :
    (pages : ℕ → Link) (before : Option ℕ) (xs : List ℕ) (x : ℕ)
    → Linked pages before xs
    → ((y : ℕ) → count y xs ≤ 1)
    → ((y : ℕ) → 0 < count y xs → before ≢ some y)
    → 0 < count x xs
    → Linked (unlink pages x) before (remove x xs)
unfolding Linked count remove
unlink-Linked pages before [] x linked once outside h = absurd (omega (arith, h))
unlink-Linked pages before (y ∷ ys) x (prev, next, rest) once outside h = elim (ℕ_discrete y x) [
  | yes e ↦
      rw (e, ==_refl x)
        (subst (λ w. Linked (unlink pages w) before ys) e
          (unlink-first pages before y ys (prev, next, rest) once outside))
  | no ne ↦
      let listed : 0 < count x ys = ground arith in
      let gone : count y ys ≡ 0 = ground (arith, once y) in
      let after =
        unlink-Linked pages (some y) ys x rest (λ w. ground (arith, once w))
          (λ w hw e. absurd (ground (arith, eq_of_some e, gone, hw))) listed in
      let not_next : (pages x).next ≢ some y =
        λ e. absurd (omega (arith, gone, next-listed pages (some y) ys x y rest listed e)) in
      rw (==_ne y x ne) (
        unlink-prev pages x y not_next ∙ prev,
        next_after pages y ys x next rest listed gone,
        after,
      )
]

is_block-some : (b x : ℕ) → is_block (some b) x ≡ (b == x)
unfolding is_block
is_block-some b x = refl

is_none-none : is_none none ≡ true
unfolding is_none
is_none-none = refl

count-nil : (x : ℕ) → count x [] ≡ 0
unfolding count
count-nil x = refl

-- `remove_from_freelist` passes its ASSERT, and takes a listed block out of the list.
pub remove_from_freelist-Holds :
    (list : FreeList) (xs : List ℕ) (x : ℕ)
    → Holds list xs
    → 0 < count x xs
    → (list' : FreeList) × (remove_from_freelist list x ≡ ok list') × Holds list' (remove x xs)
unfolding Holds remove_from_freelist Linked head remove
remove_from_freelist-Holds list [] x (first, linked, once) h =
    absurd (omega (arith, h, count-nil x))
remove_from_freelist-Holds list (y ∷ ys) x (first, linked, once) h =
    let linked' = unlink-Linked list.pages none (y ∷ ys) x linked once (λ w hw e. cc) h in
    let once' : (w : ℕ) → count w (remove x (y ∷ ys)) ≤ 1 =
      λ w. omega (arith, count-remove w x (y ∷ ys) h, once w) in
    elim (ℕ_discrete y x) [
      | yes e ↦
          let found : is_block list.first x ≡ true =
            ap (λ f. is_block f x) first ∙ is_block-some y x ∙ rw (e) (==_refl x) in
          let top : is_none (list.pages x).prev ≡ true =
            ap is_none (ap (λ w. (list.pages w).prev) (sym e) ∙ linked.0) ∙ is_none-none in
          (
            record { pages = unlink list.pages x; first = (list.pages x).next },
            rw (found, top) refl,
            (
              ap (λ w. (list.pages w).next) (sym e) ∙ linked.1 ∙ rw (e, ==_refl x) refl,
              linked',
              once',
            ),
          )
      | no ne ↦
          let found : is_block list.first x ≡ false =
            ap (λ f. is_block f x) first ∙ is_block-some y x ∙ ==_ne y x ne in
          (
            record { pages = unlink list.pages x; first = list.first },
            rw (found) refl,
            (first ∙ rw (==_ne y x ne) refl, linked', once'),
          )
    ]

-- A list whose first block gets another `prev`.
relink-first :
    (pages : ℕ → Link) (before after : Option ℕ) (xs : List ℕ)
    → Linked pages before xs
    → ((y : ℕ) → count y xs ≤ 1)
    → Linked (write_prev (head xs) after pages) after xs
unfolding Linked head count
relink-first pages before after [] linked once = tt
relink-first pages before after (x ∷ xs) (prev, next, rest) once =
    let here = write_prev-same after pages x in
    (
      ap (λ (l : Link). l.prev) here,
      ap (λ (l : Link). l.next) here ∙ next,
      Linked-frame pages (write_prev (some x) after pages) (some x) xs
          (λ w h.
            write_prev-other (some x) after pages w
              (λ e. absurd (ground (arith, once w, eq_of_some e, h))))
          rest,
    )

-- The first block is dropped from a list.
pub drop_first-Holds :
    (list : FreeList) (x : ℕ) (xs : List ℕ) → Holds list (x ∷ xs) → Holds (drop_first list x) xs
unfolding Holds drop_first Linked count
drop_first-Holds list x xs (first, (prev, next, rest), once) = (
  next,
  subst (λ h. Linked (write_prev h none list.pages) none xs) (sym next)
      (relink-first list.pages (some x) none xs rest (λ y. omega (arith, once y))),
  λ y. omega (arith, once y),
)

-- A block that is not in the list is put in front of it.
pub push_first-Holds :
    (list : FreeList) (xs : List ℕ) (x : ℕ)
    → Holds list xs
    → count x xs ≡ 0
    → Holds (push_first list x) (x ∷ xs)
unfolding Holds push_first Linked count head
push_first-Holds list xs x (first, linked, once) fresh =
    let pages : ℕ → Link = write_prev list.first (some x) list.pages in
    let middle : ℕ → Link = write_next (some x) list.first pages in
    let here = write_prev-same none middle x in
    let old =
      subst (λ h. Linked (write_prev h (some x) list.pages) (some x) xs) (sym first)
        (relink-first list.pages none (some x) xs linked once) in
    let apart : (w : ℕ) → 0 < count w xs → some x ≢ some w =
      λ w h e. absurd (omega (arith, h, fresh, ap (λ v. count v xs) (eq_of_some e))) in
    (
      refl,
      (
        ap (λ (l : Link). l.prev) here,
        ap (λ (l : Link). l.next) here
            ∙ ap (λ (l : Link). l.next) (write_next-same list.first pages x)
            ∙ first,
        Linked-frame pages (write_prev (some x) none middle) (some x) xs
            (λ w h.
              write_prev-other (some x) none middle w (apart w h)
              ∙ write_next-other (some x) list.first pages w (apart w h))
            old,
      ),
      λ w. elim (ℕ_discrete x w) [
        | yes e ↦
            let none_here : count w xs ≡ 0 = ap (λ v. count v xs) (sym e) ∙ fresh in
            ground (arith, none_here)
        | no ne ↦ ground (arith, once w)
      ],
    )

-- A block is put into an empty list.
pub put_only-Holds : (list : FreeList) (x : ℕ) → Holds (put_only list x) (x ∷ [])
unfolding Holds put_only Linked count head
put_only-Holds list x =
    let middle : ℕ → Link = write_next (some x) none list.pages in
    let here = write_prev-same none middle x in
    (
      refl,
      (
        ap (λ (l : Link). l.prev) here,
        ap (λ (l : Link). l.next) here
            ∙ ap (λ (l : Link). l.next) (write_next-same none list.pages x),
        tt,
      ),
      λ w. ground arith,
    )

-- `PhysicalRegion::init` completes the free list of a new zone.
pub init_block-Holds :
    (list : FreeList) (x : ℕ) → list.first ≡ some x → Holds (init_block list x) (x ∷ [])
unfolding Holds init_block Linked count head
init_block-Holds list x first =
    let middle : ℕ → Link = write_prev (some x) none list.pages in
    let here = write_next-same none middle x in
    (
      first,
      (
        ap (λ (l : Link). l.prev) here
            ∙ ap (λ (l : Link). l.prev) (write_prev-same none list.pages x),
        ap (λ (l : Link). l.next) here,
        tt,
      ),
      λ w. ground arith,
    )
