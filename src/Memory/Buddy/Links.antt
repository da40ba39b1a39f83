-- ===== src/Memory/Buddy/Links.antt =====
-- The free lists of kernel/memory/BuddyZone.cpp as they are stored: links in the descriptors of the
-- free pages (kernel/memory/PhysicalPage.h), -1 for no page, and the first block in `freelist`.
use nusa_os.Common.{
  ℕ, ◌≤◌, ◌≡◌, Bool, true, false, List, [], ◌∷◌, ◌==◌, if◌then◌else◌, Option, none, some, Result,
  ok, ◌>>◌, assert,
}
use nusa_os.Memory.Buddy.Blocks.{count}

-- `PhysicalPage::free`
pub record Link : Type 0 where
  pub next : Option ℕ
  pub prev : Option ℕ

pub record FreeList : Type 0 where
  pub pages : ℕ → Link
  pub first : Option ℕ

-- `get_block(i).free.prev = value`, and the same for `next`. A block i of -1 is the page before the
-- zone, which `pages` does not hold.
unfoldable pub write_prev : Option ℕ → Option ℕ → (ℕ → Link) → ℕ → Link
write_prev none value pages j = pages j
write_prev (some i) value pages j =
    if j == i then record { next = (pages j).next; prev = value } else pages j

unfoldable pub write_next : Option ℕ → Option ℕ → (ℕ → Link) → ℕ → Link
write_next none value pages j = pages j
write_next (some i) value pages j =
    if j == i then record { next = value; prev = (pages j).prev } else pages j

-- Lines 63-67: the second half of a split block, in an empty list.
unfoldable pub put_only : FreeList → ℕ → FreeList
put_only list block = record {
  pages = write_prev (some block) none (write_next (some block) none list.pages);
  first = some block;
}

-- `PhysicalRegion::init` at a zone whose first free block is this one.
unfoldable pub init_block : FreeList → ℕ → FreeList
init_block list block = record list {
  pages = write_next (some block) none (write_prev (some block) none list.pages);
}

-- Lines 79-80.
unfoldable pub drop_first : FreeList → ℕ → FreeList
drop_first list block =
    let second = (list.pages block).next in
    record { pages = write_prev second none list.pages; first = second }

-- Lines 106-112.
unfoldable pub push_first : FreeList → ℕ → FreeList
push_first list block =
    let pages = write_prev list.first (some block) list.pages in
    record {
      pages = write_prev (some block) none (write_next (some block) list.first pages);
      first = some block;
    }

-- `freelist == block`
unfoldable pub is_block : Option ℕ → ℕ → Bool
is_block none block = false
is_block (some b) block = b == block

unfoldable pub is_none : Option ℕ → Bool
is_none none = true
is_none (some b) = false

-- The two writes of `remove_from_freelist` to the neighbours.
unfoldable pub unlink : (ℕ → Link) → ℕ → ℕ → Link
unlink pages block =
    let page = pages block in write_next page.prev page.next (write_prev page.next page.prev pages)

unfoldable pub remove_from_freelist : FreeList → ℕ → Result FreeList
remove_from_freelist list block =
    let page = list.pages block in
    let pages = unlink list.pages block in
    if is_block list.first block
    then (assert (is_none page.prev) >> ok (record { pages = pages; first = page.next }))
    else ok (record { pages = pages; first = list.first })

unfoldable pub head : List ℕ → Option ℕ
head [] = none
head (x ∷ xs) = some x

-- The blocks are linked in this order, and the first one's `prev` is the given one.
unfoldable pub Linked : (ℕ → Link) → Option ℕ → List ℕ → Type 0
Linked pages before [] = Unit
Linked pages before (x ∷ xs) =
    ((pages x).prev ≡ before) × ((pages x).next ≡ head xs) × Linked pages (some x) xs

-- The stored list is this one.
unfoldable pub Holds : FreeList → List ℕ → Type 0
Holds list xs = (list.first ≡ head xs) × Linked list.pages none xs × ((x : ℕ) → count x xs ≤ 1)
