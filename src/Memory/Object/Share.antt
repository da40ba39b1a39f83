-- ===== src/Memory/Object/Share.antt =====
-- `AnonymousVMObject::clone`: the object and its clone share all pages, each of them marked for
-- copy-on-write in both.
use nusa_os.Common.{
  ℕ, zero, suc, ◌+◌, ◌<◌, ◌≤◌, ◌≡◌, ◌≢◌, refl, sym, ap, ◌∙◌, true, false, List, [], ◌∷◌, ◌==◌,
  if◌then◌else◌, get_or, length, ok, arith, ℕ_discrete, ==_refl, ==_ne,
}
use nusa_os.Kstd.Bitmap.{Bitmap, make, get_bit, set_bit}
use nusa_os.Kstd.Bitmap.Laws.{Fits, set_bit-Fits, get-set, make-Fits}
use nusa_os.Memory.Buddy.Blocks.{count}
use nusa_os.Memory.Object.{
  Phys, VmObject, put, ref, mark_cow, make_object, page_is_cow, ref_pages, become_cow_and_ref_pages,
  clone,
}
use nusa_os.Memory.Object.Uses.{uses, IsCounted, put-same, put-other}

-- From bit i on, the bits of the pages that are there are set; those before i are as they were.
unfoldable pub Marks : ℕ → List ℕ → ℕ → Bitmap → Bitmap → Type 0
Marks i pages n bits bits' =
    Fits bits' n
    × ((j : ℕ) → j < length pages → get_or pages j 0 ≢ 0 → get_bit bits' (i + j) ≡ true)
    × ((k : ℕ) → k < i → get_bit bits' k ≡ get_bit bits k)

set_before :
    (bits : Bitmap) (n i k : ℕ)
    → Fits bits n
    → i < n
    → k < i
    → get_bit (set_bit bits i true) k ≡ get_bit bits k
set_before bits n i k fits lt low =
    get-set bits n i k true fits lt ∙ rw (==_ne i k (λ e. absurd (omega arith))) refl

set_here : (bits : Bitmap) (n i : ℕ) → Fits bits n → i < n → get_bit (set_bit bits i true) i ≡ true
set_here bits n i fits lt = get-set bits n i i true fits lt ∙ rw (==_refl i) refl

Marks-nil : (i n : ℕ) (bits : Bitmap) → Fits bits n → Marks i [] n bits bits
unfolding Marks
Marks-nil i n bits fits = (fits, λ j lt. absurd (omega arith), λ k low. refl)

-- A page that is there has been marked before the rest is.
Marks-cons :
    (i page : ℕ) (pages : List ℕ) (n : ℕ) (bits bits' : Bitmap)
    → page ≢ 0
    → Fits bits n
    → i < n
    → Marks (suc i) pages n (set_bit bits i true) bits'
    → Marks i (page ∷ pages) n bits bits'
unfolding Marks
Marks-cons i page pages n bits bits' some_page fits lt (fits', marked, before) =
    (fits', marks, λ k low. before k (omega arith) ∙ set_before bits n i k fits lt low)
  where
    marks :
        (j : ℕ)
        → j < length (page ∷ pages)
        → get_or (page ∷ pages) j 0 ≢ 0
        → get_bit bits' (i + j) ≡ true
    marks zero h some' =
        ap (get_bit bits') (omega arith) ∙ before i (omega arith) ∙ set_here bits n i fits lt
    marks (suc j) h some' = ap (get_bit bits') (omega arith) ∙ marked j (omega arith) some'

Marks-skip :
    (i page : ℕ) (pages : List ℕ) (n : ℕ) (bits bits' : Bitmap)
    → page ≡ 0
    → Marks (suc i) pages n bits bits'
    → Marks i (page ∷ pages) n bits bits'
unfolding Marks
Marks-skip i page pages n bits bits' none (fits', marked, before) =
    (fits', marks, λ k low. before k (omega arith))
  where
    marks :
        (j : ℕ)
        → j < length (page ∷ pages)
        → get_or (page ∷ pages) j 0 ≢ 0
        → get_bit bits' (i + j) ≡ true
    marks zero h some' = absurd (some' none)
    marks (suc j) h some' = ap (get_bit bits') (omega arith) ∙ marked j (omega arith) some'

mark_cow-Marks :
    (i : ℕ) (pages : List ℕ) (n : ℕ) (bits : Bitmap)
    → Fits bits n
    → i + length pages ≤ n
    → Marks i pages n bits (mark_cow i pages bits)
unfolding mark_cow
mark_cow-Marks i [] n bits fits le = Marks-nil i n bits fits
mark_cow-Marks i (page ∷ pages) n bits fits le = elim (ℕ_discrete page 0) [
  | yes e ↦
      rw (e) (
        Marks-skip i 0 pages n bits _ refl (mark_cow-Marks (suc i) pages n bits fits (omega arith)))
  | no ne ↦ rw (==_ne page 0 ne) (
      Marks-cons i page pages n bits _ ne fits (omega arith) (
        mark_cow-Marks (suc i) pages n (set_bit bits i true) (set_bit-Fits bits n i true fits)
          (omega arith)))
]

ref_counts :
    (m : Phys) (page : ℕ)
    → m.ref_count page ≢ 65535
    → ref m page ≡ ok (record m { ref_count = put m.ref_count page (m.ref_count page + 1) })
unfolding ref
ref_counts m page small = rw (==_ne (m.ref_count page) 65535 small) refl

put_more : (f : ℕ → ℕ) (page p : ℕ) → put f page (f page + 1) p ≡ f p + (if page == p then 1 else 0)
put_more f page p = elim (ℕ_discrete p page) [
  | yes e ↦
      let here : (page == p) ≡ true = ap (λ q. page == q) e ∙ ==_refl page in
      ap (put f page (f page + 1)) e
      ∙ put-same f page (f page + 1)
      ∙ rw (here) (ap (λ q. f q + 1) (sym e))
  | no ne ↦ put-other f page (f page + 1) p ne ∙ rw (==_ne page p (λ e. ne (sym e))) (omega arith)
]

still_small :
    (f : ℕ → ℕ) (page p n : ℕ)
    → f p + ((if page == p then 1 else 0) + n) ≤ 65535
    → put f page (f page + 1) p + n ≤ 65535
still_small f page p n small = omega (arith, put_more f page p, small)

-- The loop marks the pages that are there and counts one more reference of each.
ref_pages-Marks :
    (i : ℕ) (pages : List ℕ) (m : Phys) (n : ℕ) (bits : Bitmap)
    → Fits bits n
    → i + length pages ≤ n
    → ((p : ℕ) → p ≢ 0 → m.ref_count p + count p pages ≤ 65535)
    → (m' : Phys) × (bits' : Bitmap) × (ref_pages i pages m bits ≡ ok (m', bits'))
      × Marks i pages n bits bits'
      × ((p : ℕ) → p ≢ 0 → m'.ref_count p ≡ m.ref_count p + count p pages)
      × ((p : ℕ) → m'.bytes p ≡ m.bytes p)
unfolding ref_pages count
ref_pages-Marks i [] m n bits fits le small =
    (m, bits, refl, Marks-nil i n bits fits, λ p some_page. omega arith, λ p. refl)
ref_pages-Marks i (page ∷ pages) m n bits fits le small = elim (ℕ_discrete page 0) [
  | yes e ↦
      let (m', bits', ran, marks, counts, same) =
        ref_pages-Marks (suc i) pages m n bits fits (omega arith)
          (λ p some_page. ground (arith, small p some_page)) in
      (
        m',
        bits',
        rw (e) ran,
        Marks-skip i page pages n bits bits' e marks,
        λ p some_page. counts p some_page ∙ ground (arith, e, some_page),
        same,
      )
  | no ne ↦
      let m1 : Phys = record m { ref_count = put m.ref_count page (m.ref_count page + 1) } in
      let counted =
        ref_counts m page (λ e. absurd (ground (arith, small page ne, ==_refl page, e))) in
      let grown : (p : ℕ) → m1.ref_count p ≡ m.ref_count p + (if page == p then 1 else 0) =
        put_more m.ref_count page in
      let (m', bits', ran, marks, counts, same) =
        ref_pages-Marks (suc i) pages m1 n (set_bit bits i true) (set_bit-Fits bits n i true fits)
          (omega arith)
          (λ p some_page. still_small m.ref_count page p (count p pages) (small p some_page)) in
      (
        m',
        bits',
        rw (==_ne page 0 ne, counted) ran,
        Marks-cons i page pages n bits bits' ne fits (omega arith) marks,
        λ p some_page. omega (arith, counts p some_page, grown p),
        same,
      )
]

-- A clone of an object that is not shared succeeds as long as the count of each of its pages stays
-- below 65536 with one more reference for every place that the page has in the object: both objects have the pages of the old one, all that
-- are there are marked for copy-on-write in both, the counts are right, and no byte has changed.
pub clone-shares :
    (m : Phys) (object : VmObject) (others : List VmObject)
    → IsCounted m (object ∷ others)
    → Fits object.cow_pages (length object.physical_pages)
    → ((p : ℕ) → p ≢ 0 → m.ref_count p + count p object.physical_pages ≤ 65535)
    → (m' : Phys) × (object' : VmObject) × (copy : VmObject) × (clone m object false
        ≡ ok (m', object', copy))
      × IsCounted m' (object' ∷ copy ∷ others)
      × (object'.physical_pages ≡ object.physical_pages)
      × (copy.physical_pages ≡ object.physical_pages)
      × ((i : ℕ)
          → i < length object.physical_pages
          → get_or object.physical_pages i 0 ≢ 0
          → (page_is_cow object' i ≡ true) × (page_is_cow copy i ≡ true))
      × ((p : ℕ) → m'.bytes p ≡ m.bytes p)
unfolding clone become_cow_and_ref_pages make_object page_is_cow IsCounted uses Marks
clone-shares m object others counted fits small =
    let n = length object.physical_pages in
    let (m', bits', ran, (fits', marked, before), counts, same) =
      ref_pages-Marks 0 object.physical_pages m n object.cow_pages fits (omega arith) small in
    let (fresh, marked', before') =
      mark_cow-Marks 0 object.physical_pages n (make n false) (make-Fits n false) (omega arith) in
    (
      m',
      record object { cow_pages = bits' },
      make_object object.physical_pages true,
      rw (ran) refl,
      (λ p some_page. omega (arith, counts p some_page, counted p some_page)),
      refl,
      refl,
      (λ i lt some_page. (
        ap (get_bit bits') (omega arith) ∙ marked i lt some_page,
        ap (get_bit (mark_cow 0 object.physical_pages (make n false))) (omega arith)
            ∙ marked' i lt some_page,
      )),
      same,
    )
