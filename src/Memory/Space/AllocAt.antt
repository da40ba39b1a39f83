-- ===== src/Memory/Space/AllocAt.antt =====
-- `VMSpace::alloc_space_at` (kernel/memory/VMSpace.cpp): an allocation at a given address.
use nusa_os.Common.{
  ℕ, ◌+◌, ◌-◌, ◌%◌, ◌≤◌, ◌<◌, ◌≡◌, refl, Bool, true, false, some, List, ◌∷◌, subst, ◌||◌, word_mod,
  add_word, sub_word, add_word-exact, sub_word-exact, arith, ◌⊎◌, ok, ◌==◌, Option-cases,
  Bool-cases, inl, inr, dec_lt,
}
use nusa_os.Memory.Space.{
  page_size, Region, Space, Cursor, Placed, contains, end, seek, split_before, split_after,
  carve_at, free_part, alloc_space_at,
}
use nusa_os.Memory.Space.Inv.{Layout, Layout-le, Layout-at, Layout-solid, or_true}

-- Where a successful `alloc_space_at` stopped, and what it handed back.
pub record AllocatedAt (s : Space) (size address : ℕ) (p : Placed) : Type 0 where
  pub address_aligned : address % page_size ≡ 0
  pub size_aligned : size % page_size ≡ 0
  pub cursor : Cursor
  pub found : seek (λ r. contains r address) s ≡ some cursor
  pub result : carve_at size address s.used cursor ≡ ok p

pub alloc_space_at-AllocatedAt :
    (s : Space) (size address : ℕ) (p : Placed)
    → alloc_space_at s size address ≡ ok p
    → AllocatedAt s size address p
unfolding alloc_space_at
alloc_space_at-AllocatedAt s size address p e = elim (Bool-cases (address % page_size == 0)) [
  | inl al ↦ elim (Bool-cases (size % page_size == 0)) [
    | inl al' ↦ elim (Option-cases (seek (λ r. contains r address) s)) [
      | inl missed ↦ cc (rw (al, al', missed) at e)
      | inr (c, hit) ↦ record {
        address_aligned = ground arith;
        size_aligned = ground arith;
        cursor = c;
        found = hit;
        result = rw (al, al', hit) at e;
      }
    ]
    | inr bad ↦ cc (rw (al, bad) at e)
  ]
  | inr bad ↦ cc (rw bad at e)
]

abbrev pub new_region : ℕ → ℕ → Cursor → Region
new_region size address c = record (c.region) { start = address; size = size; used = true }

abbrev pub placed_at : ℕ → ℕ → ℕ → Cursor → Placed
placed_at size address used c = record {
  at = record {
    before = split_before address c;
    region = new_region size address c;
    after = split_after size address c;
  };
  used = add_word used size;
}

abbrev pub placed_whole : ℕ → Cursor → Placed
placed_whole used c = record {
  at = record c { region = record (c.region) { used = true } };
  used = add_word used c.region.size;
}

-- The two ways in which `carve_at` succeeds.
pub carve_at_cases :
    (size address used : ℕ) (c : Cursor) (p : Placed)
    → carve_at size address used c ≡ ok p
    → (c.region.used ≡ false)
      × (((c.region.size ≡ size) × (p ≡ placed_whole used c))
          ⊎ ((size ≤ sub_word c.region.size (sub_word address c.region.start))
              × (p ≡ placed_at size address used c)))
unfolding carve_at
carve_at_cases size address used c p e = ground arith

-- Where a region is, in numbers that do not wrap.
pub contains-bounds :
    (stop a address : ℕ) (s : Bool) (r : Region) (rest : List Region)
    → stop < word_mod
    → contains r address ≡ true
    → Layout stop a s (r ∷ rest)
    → (end r ≡ a + r.size) × (a ≤ address) × (address < a + r.size) × (a + r.size ≤ stop)
unfolding contains end
contains-bounds stop a address s r rest fits h t =
    let le = Layout-le stop (a + r.size) r.used rest t.5 in
    let exact = add_word-exact r.start r.size (omega arith) in ground arith

pub split_after-some :
    (size address : ℕ) (c : Cursor)
    → add_word address size < end c.region
    → split_after size address c
      ≡ free_part (add_word address size) (sub_word (end c.region) (add_word address size))
        ∷ c.after
unfolding split_after
split_after-some size address c h = ground arith

pub split_after-none :
    (size address : ℕ) (c : Cursor)
    → end c.region ≤ add_word address size
    → split_after size address c ≡ c.after
unfolding split_after
split_after-none size address c h = ground arith

pub split_before-some :
    (address : ℕ) (c : Cursor)
    → c.region.start < address
    → split_before address c ≡ free_part c.region.start (sub_word address c.region.start) ∷ c.before
unfolding split_before
split_before-some address c h = ground arith

pub split_before-none :
    (address : ℕ) (c : Cursor) → address ≤ c.region.start → split_before address c ≡ c.before
unfolding split_before
split_before-none address c h = ground arith

module _ (stop a size address : ℕ) (s : Bool) (c : Cursor) (fits : stop < word_mod)
    (h : contains c.region address ≡ true) (t : Layout stop a s (c.region ∷ c.after))
    (room : size ≤ sub_word c.region.size (sub_word address c.region.start)) (pos : 0 < size)
    (al : address % page_size ≡ 0) (al' : size % page_size ≡ 0) (free : c.region.used ≡ false) where
  bounds :
      (end c.region ≡ a + c.region.size)
      × (add_word address size ≡ address + size)
      × (sub_word address c.region.start ≡ address - a)
      × (a ≤ address)
      × (address + size ≤ a + c.region.size)
      × (a + c.region.size ≤ stop)
  bounds =
      let (e, lo, hi, le) = contains-bounds stop a address s c.region c.after fits h t in
      let off = sub_word-exact address c.region.start (omega arith) (omega arith) in
      let left =
        sub_word-exact c.region.size (sub_word address c.region.start) (omega arith)
          (omega arith) in
      let top = add_word-exact address size (omega arith) in omega arith

  -- The list behind the new region.
  pub after_Layout : Layout stop (address + size) true (split_after size address c)
  unfolding free_part
  after_Layout =
      let (e, top, off, lo, hi, le) = bounds in
      elim (dec_lt (add_word address size) (end c.region)) [
        | yes more ↦
            let diff =
              sub_word-exact (end c.region) (add_word address size) (omega arith) (omega arith) in
            rw (split_after-some size address c more) (
              top,
              omega arith,
              (omega arith, omega arith),
              refl,
              λ _. refl,
              Layout-at stop (a + c.region.size) _ false c.after (omega arith)
                  (subst (λ u. Layout stop (a + c.region.size) u c.after) free t.5),
            )
        | no done ↦ rw (split_after-none size address c (omega arith)) (
            Layout-solid stop _ c.region.used c.after
              (Layout-at stop (a + c.region.size) _ c.region.used c.after (omega arith) t.5))
      ]

  pub new_Layout :
      (solid : Bool)
      → Layout stop address solid (new_region size address c ∷ split_after size address c)
  new_Layout solid = (refl, pos, (al, al'), or_true solid, λ e. cc, after_Layout)

  -- Before it, where `alloc_space_at` leaves a free part.
  pub before_Layout :
      a < address
      → Layout stop a s (
          free_part c.region.start (sub_word address c.region.start)
          ∷ new_region size address c
          ∷ split_after size address c)
  unfolding free_part
  before_Layout lt =
      let (e, top, off, lo, hi, le) = bounds in
      (
        t.0,
        omega arith,
        (t.2.0, omega arith),
        subst (λ u. (s || u) ≡ true) free t.3,
        λ _. refl,
        Layout-at stop address _ false (new_region size address c ∷ split_after size address c)
            (omega arith) (new_Layout false),
      )
