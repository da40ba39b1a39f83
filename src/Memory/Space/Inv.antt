-- ===== src/Memory/Space/Inv.antt =====
-- The layout of an address space: its regions lie end to end from `m_start` to `m_start + m_size`,
-- no two free ones side by side, and `m_used` is the sum of the sizes of the used ones. The
-- operations of kernel/memory/VMSpace.cpp keep it.
use nusa_os.Common.{
  ℕ, ◌+◌, ◌%◌, ◌≤◌, ◌<◌, ◌≡◌, refl, subst, Bool, true, false, ◌||◌, none, List, [], ◌∷◌,
  if◌then◌else◌, rev_append, word_mod, arith,
}
use nusa_os.Memory.Space.{page_size, Region, Space, init}

-- `from` is where the next region has to begin; `solid` says that the one before is not free.
abbrev pub Layout : ℕ → ℕ → Bool → List Region → Type 0
Layout stop from solid [] = from ≡ stop
Layout stop from solid (r ∷ rest) =
    (r.start ≡ from)
    × (0 < r.size)
    × ((r.start % page_size ≡ 0) × (r.size % page_size ≡ 0))
    × ((solid || r.used) ≡ true)
    × (r.used ≡ false → r.vm_region ≡ none)
    × Layout stop (from + r.size) r.used rest

abbrev pub total_used : List Region → ℕ
total_used [] = 0
total_used (r ∷ rest) = (if r.used then r.size else 0) + total_used rest

pub record IsValid (s : Space) : Type 0 where
  pub layout : Layout (s.start + s.size) s.start true s.regions
  pub counted : s.used ≡ total_used s.regions
  pub fits : s.start + s.size < word_mod

pub Layout-le :
    (stop from : ℕ) (solid : Bool) (rs : List Region) → Layout stop from solid rs → from ≤ stop
Layout-le stop from solid [] h = omega arith
Layout-le stop from solid (r ∷ rest) h =
    omega (arith, Layout-le stop (from + r.size) r.used rest h.5)

-- A change from the cursor on that keeps the layout there keeps that of the whole list.
pub Layout-replace :
    (stop from : ℕ) (solid : Bool) (before old new : List Region)
    → ((a : ℕ) (s : Bool) → Layout stop a s old → Layout stop a s new)
    → Layout stop from solid (rev_append before old)
    → Layout stop from solid (rev_append before new)
Layout-replace stop from solid [] old new f h = f from solid h
Layout-replace stop from solid (x ∷ xs) old new f h =
    Layout-replace stop from solid xs (x ∷ old) (x ∷ new)
      (λ a s t. (t.0, t.1, t.2, t.3, t.4, f (a + x.size) x.used t.5)) h

-- What the layout says at the cursor.
pub Layout-here {κ} :
    (stop from : ℕ) (solid : Bool) (before rest : List Region) (P : Type κ)
    → ((a : ℕ) (s : Bool) → from ≤ a → Layout stop a s rest → P)
    → Layout stop from solid (rev_append before rest)
    → P
Layout-here stop from solid [] rest P f h = f from solid (omega arith) h
Layout-here stop from solid (x ∷ xs) rest P f h =
    Layout-here stop from solid xs (x ∷ rest) P
      (λ a s le t. f (a + x.size) x.used (omega arith) t.5) h

pub total_used-rev_append :
    (before rest : List Region)
    → total_used (rev_append before rest) ≡ total_used before + total_used rest
total_used-rev_append [] rest = omega arith
total_used-rev_append (x ∷ xs) rest = omega (arith, total_used-rev_append xs (x ∷ rest))

pub total_used-le :
    (stop from : ℕ) (solid : Bool) (rs : List Region)
    → Layout stop from solid rs
    → total_used rs + from ≤ stop
total_used-le stop from solid [] h = omega arith
total_used-le stop from solid (r ∷ rest) h =
    ground (arith, total_used-le stop (from + r.size) r.used rest h.5)

-- `VMSpace::VMSpace` makes a valid space of a page-aligned range that is not empty and does not
-- wrap.
pub init-IsValid :
    (start size : ℕ)
    → 0 < size
    → start % page_size ≡ 0
    → size % page_size ≡ 0
    → start + size < word_mod
    → IsValid (init start size)
unfolding init
init-IsValid start size pos at aligned fits = record {
  layout = (refl, pos, (at, aligned), refl, λ e. refl, refl);
  counted = omega arith;
  fits = fits;
}

pub Layout-at :
    (stop a b : ℕ) (s : Bool) (rs : List Region) → a ≡ b → Layout stop a s rs → Layout stop b s rs
Layout-at stop a b s rs e h = subst (λ x. Layout stop x s rs) e h

pub Layout-solid :
    (stop a : ℕ) (s : Bool) (rs : List Region) → Layout stop a s rs → Layout stop a true rs
Layout-solid stop a s [] h = h
Layout-solid stop a s (r ∷ rest) h = (h.0, h.1, h.2, refl, h.4, h.5)

pub or_true : (b : Bool) → (b || true) ≡ true
or_true b = ground arith
