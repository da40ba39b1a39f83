-- ===== src/Memory/Space/Cursors.antt =====
-- The scan of a region list (`while(cur_region)` in kernel/memory/VMSpace.cpp): where it stops, and
-- how a change at the cursor carries over to the whole list.
use nusa_os.Common.{
  ◌≡◌, refl, ◌∙◌, ap, Bool, true, false, none, some, List, [], ◌∷◌, ◌++◌, inl, inr, arith,
  rev_append, All, Bool-cases, subst,
}
use mathlib.Core.List.{append-nil}
use nusa_os.Memory.Space.{Region, Space, Cursor, close, seek_from, seek}

-- The nodes that a scan passed, from the cursor back to where it began, fail the test.
pub record Stops (test : Region → Bool) (before rest : List Region) (c : Cursor) : Type 0 where
  pub same : close c ≡ rev_append before rest
  pub hit : test c.region ≡ true
  pub skipped : List Region
  pub passed : c.before ≡ skipped ++ before
  pub missed : All (λ r. test r ≡ false) skipped

snoc_passed :
    (r : Region) (before skipped : List Region)
    → skipped ++ (r ∷ before) ≡ (skipped ++ (r ∷ [])) ++ before
snoc_passed r before [] = refl
snoc_passed r before (x ∷ xs) = ap (◌∷◌ x) (snoc_passed r before xs)

All-snoc {κ} :
    (P : Region → Type κ) (r : Region) (xs : List Region) → All P xs → P r → All P (xs ++ (r ∷ []))
All-snoc P r [] h p = (p, h)
All-snoc P r (x ∷ xs) h p = (h.0, All-snoc P r xs h.1 p)

pub seek_from-Stops :
    (test : Region → Bool) (before rest : List Region) (c : Cursor)
    → seek_from test before rest ≡ some c
    → Stops test before rest c
unfolding seek_from
seek_from-Stops test before [] c e = cc
seek_from-Stops test before (r ∷ rest) c e = elim (Bool-cases (test r)) [
  | inl passes ↦
      let here : record { before = before; region = r; after = rest } ≡ c = ground arith in
      subst (Stops test before (r ∷ rest)) here
        (record { same = refl; hit = passes; skipped = []; passed = refl; missed = tt })
  | inr fails ↦
      let ih = seek_from-Stops test (r ∷ before) rest c (rw (fails, seek_from) at e) in
      record {
        same = ih.same;
        hit = ih.hit;
        skipped = ih.skipped ++ (r ∷ []);
        passed = ih.passed ∙ snoc_passed r before ih.skipped;
        missed = All-snoc (λ x. test x ≡ false) r ih.skipped ih.missed fails;
      }
]

-- A scan that finds nothing has tried every node.
pub seek_from-misses :
    (test : Region → Bool) (before rest : List Region)
    → seek_from test before rest ≡ none
    → All (λ r. test r ≡ false) rest
unfolding seek_from
seek_from-misses test before [] e = tt
seek_from-misses test before (r ∷ rest) e = elim (Bool-cases (test r)) [
  | inl passes ↦ cc (rw (passes, seek_from) at e)
  | inr fails ↦ (fails, seek_from-misses test (r ∷ before) rest (rw (fails, seek_from) at e))
]

pub seek-Stops :
    (test : Region → Bool) (s : Space) (c : Cursor)
    → seek test s ≡ some c
    → Stops test [] s.regions c
unfolding seek
seek-Stops test s c e = seek_from-Stops test [] s.regions c e

pub seek-misses :
    (test : Region → Bool) (s : Space) → seek test s ≡ none → All (λ r. test r ≡ false) s.regions
unfolding seek
seek-misses test s e = seek_from-misses test [] s.regions e

pub seek_from-none :
    (test : Region → Bool) (before rest : List Region)
    → All (λ r. test r ≡ false) rest
    → seek_from test before rest ≡ none
unfolding seek_from
seek_from-none test before [] h = refl
seek_from-none test before (r ∷ rest) h = rw h.0 (seek_from-none test (r ∷ before) rest h.1)

pub seek-none :
    (test : Region → Bool) (s : Space) → All (λ r. test r ≡ false) s.regions → seek test s ≡ none
unfolding seek
seek-none test s h = seek_from-none test [] s.regions h

seek_from-rev_append :
    (test : Region → Bool) (before passed rest : List Region)
    → All (λ r. test r ≡ false) passed
    → seek_from test before (rev_append passed rest) ≡ seek_from test (passed ++ before) rest
unfolding seek_from
seek_from-rev_append test before [] rest h = refl
seek_from-rev_append test before (x ∷ xs) rest h =
    seek_from-rev_append test before xs (x ∷ rest) h.1 ∙ rw h.0

-- A scan stops at a node that passes the test when those before it fail it.
pub seek-close :
    (test : Region → Bool) (s : Space) (c : Cursor)
    → s.regions ≡ close c
    → All (λ r. test r ≡ false) c.before
    → test c.region ≡ true
    → seek test s ≡ some c
unfolding seek seek_from
seek-close test s c e misses hit =
    rw (e, seek_from-rev_append test [] c.before (c.region ∷ c.after) misses, append-nil, hit)
