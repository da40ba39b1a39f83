-- ===== src/Kstd/Map.antt =====
-- kernel/kstd/map.hpp: `kstd::map`, an AVL tree.
-- A `Node*` is a tree: null is `leaf`. `parent` pointers serve the source only to climb back to the
-- root, so the climb of `update_height_and_balance` is the way back out of the recursion.
-- `height` is stored in the node, as in the source, and need not be right.
pub mod Key
pub mod Spec
pub mod Updates
pub mod Balance
pub mod Insert
pub mod Erase
pub mod Refine
pub mod Assign
pub mod Bounds
mod Examples
use nusa_os.Common.{
  ℕ, zero, suc, ◌+◌, ◌-◌, max, Bool, true, false, Option, none, some, ltb, ◌==◌, if◌then◌else◌,
}
use Key.{KeyOrder}

pub data Tree {ℓ κ} (K : Type ℓ) (V : Type κ) : Type (ℓ ⊔ κ) where
  leaf : Tree K V
  node : ℕ → Tree K V → K → V → Tree K V → Tree K V

module _ {ℓ κ} {K : Type ℓ} {V : Type κ} where
  -- `n ? n->height : 0`
  abbrev pub height : Tree K V → ℕ
  height leaf = 0
  height (node h l k v r) = h

  abbrev pub is_node : Tree K V → Bool
  is_node leaf = false
  is_node (node h l k v r) = true

  unfoldable pub update_own_height : Tree K V → Tree K V
  update_own_height leaf = leaf
  update_own_height (node h l k v r) = node (max (height r) (height l) + 1) l k v r

  -- `balance_factor()` is the height of the right child less that of the left one.
  unfoldable pub is_left_heavy : Tree K V → Bool
  is_left_heavy leaf = false
  is_left_heavy (node h l k v r) = ltb (height r) (height l)

  unfoldable pub is_right_heavy : Tree K V → Bool
  is_right_heavy leaf = false
  is_right_heavy (node h l k v r) = ltb (height l) (height r)

  -- A rotation moves the child up and updates the two heights, the lower node first. The source
  -- rotates only where the child is there.
  unfoldable pub rotate_left : Tree K V → Tree K V
  unfolding update_own_height
  rotate_left leaf = leaf
  rotate_left (node h l k v leaf) = node h l k v leaf
  rotate_left (node h l k v (node h' l' k' v' r')) =
      update_own_height (node h' (update_own_height (node h l k v l')) k' v' r')

  unfoldable pub rotate_right : Tree K V → Tree K V
  unfolding update_own_height
  rotate_right leaf = leaf
  rotate_right (node h leaf k v r) = node h leaf k v r
  rotate_right (node h (node h' l' k' v' r') k v r) =
      update_own_height (node h' l' k' v' (update_own_height (node h r' k v r)))

  -- `balance`: nothing at a balance factor from -1 to 1.
  unfoldable pub balance : Tree K V → Tree K V
  unfolding rotate_left rotate_right is_left_heavy is_right_heavy
  balance leaf = leaf
  balance (node h l k v r) =
      if ltb (height r + 1) (height l)
      then rotate_right (node h (if is_right_heavy l then rotate_left l else l) k v r)
      else if ltb (height l + 1) (height r)
      then rotate_left (node h l k v (if is_left_heavy r then rotate_right r else r))
      else node h l k v r

  -- One round of `update_height_and_balance`.
  unfoldable pub rebalance : Tree K V → Tree K V
  unfolding balance update_own_height
  rebalance t = balance (update_own_height t)

  abbrev pub single : K → V → Tree K V
  single k v = node 1 leaf k v leaf

  -- Whether the climb goes on at a node of height `h`: `insert_at` starts it only at a parent of
  -- height 1, and it then goes up to the root.
  abbrev pub climbs : ℕ → Tree K V → Bool → Bool
  climbs h leaf climbing = h == 1
  climbs h (node h' l k v r) climbing = climbing

  -- The node after its child changed.
  abbrev pub settle : Bool → Tree K V → Tree K V
  settle climbing t = if climbing then rebalance t else t

  -- `subtree_successor` of a node with this right child, cut out of it: its data, and what remains.
  unfoldable pub split_min : ℕ → Tree K V → K → V → Tree K V → (K × V) × Tree K V
  split_min h leaf k v r = ((k, v), r)
  split_min h (node h' l' k' v' r') k v r =
      let (data', l) = split_min h' l' k' v' r' in (data', rebalance (node h l k v r))

  unfoldable pub split_max : ℕ → Tree K V → K → V → Tree K V → (K × V) × Tree K V
  split_max h l k v leaf = ((k, v), l)
  split_max h l k v (node h' l' k' v' r') =
      let (data', r) = split_max h' l' k' v' r' in (data', rebalance (node h l k v r))

  -- What `erase` puts in place of the node that it found. `is_right` says that the node is the root
  -- or a right child.
  unfoldable pub replace : Bool → ℕ → Tree K V → Tree K V → Tree K V
  unfolding split_min split_max
  replace is_right h leaf leaf = leaf
  replace true h l (node h' l' k' v' r') =
      let (data', r) = split_min h' l' k' v' r' in rebalance (node h l data'.0 data'.1 r)
  replace true h (node h' l' k' v' r') leaf = rebalance (node h l' k' v' r')
  replace false h (node h' l' k' v' r') r =
      let (data', l) = split_max h' l' k' v' r' in rebalance (node h l data'.0 data'.1 r)
  replace false h leaf (node h' l' k' v' r') = rebalance (node h l' k' v' r')

module _ {ℓ κ} {K : Type ℓ} {V : Type κ} ⦃o : KeyOrder K⦄ where
  -- `find_node`, as the value that it points to
  unfoldable pub find_node : K → Tree K V → Option V
  find_node key leaf = none
  find_node key (node h l k v r) =
      if o.eq k key then some v else if o.lt key k then find_node key l else find_node key r

  -- The loop of `find_node` as it runs, with its rounds as fuel: `none` when they do not suffice.
  unfoldable pub find_within : ℕ → K → Tree K V → Option (Option V)
  find_within rounds key leaf = some none
  find_within zero key (node h l k v r) = none
  find_within (suc rounds) key (node h l k v r) =
      let to_left : Option (Option V) = find_within rounds key l in
      let to_right : Option (Option V) = find_within rounds key r in
      if o.eq k key then some (some v) else if o.lt key k then to_left else to_right

  -- The loop of `insert` from a node on: `none` if the key is there, else the new subtree and
  -- whether heights above it are to be updated.
  unfoldable pub insert_from : K → V → Tree K V → Option (Tree K V × Bool)
  insert_from key val leaf = some (single key val, false)
  insert_from key val (node h l k v r) =
      let into_left : Option (Tree K V × Bool) = insert_from key val l in
      let into_right : Option (Tree K V × Bool) = insert_from key val r in
      if o.eq k key
      then none
      else if o.lt key k
      then elim into_left [
        | none ↦ none
        | some (l', climbing) ↦ let c = climbs h l climbing in some (settle c (node h l' k v r), c)
      ]
      else elim into_right [
        | none ↦ none
        | some (r', climbing) ↦ let c = climbs h r climbing in some (settle c (node h l k v r'), c)
      ]

  -- The loop of `erase` from a node on; `none` if the key is not found.
  unfoldable pub erase_from : K → Bool → Tree K V → Option (Tree K V)
  erase_from key is_right leaf = none
  erase_from key is_right (node h l k v r) =
      let from_left : Option (Tree K V) = erase_from key false l in
      let from_right : Option (Tree K V) = erase_from key true r in
      if o.eq k key
      then some (replace is_right h l r)
      else if o.lt key k
      then elim from_left [ none ↦ none | some l' ↦ some (rebalance (node h l' k v r)) ]
      else elim from_right [ none ↦ none | some r' ↦ some (rebalance (node h l k v r')) ]

pub record Map {ℓ κ} (K : Type ℓ) (V : Type κ) : Type (ℓ ⊔ κ) where
  pub root : Tree K V
  pub size : ℕ

module _ {ℓ κ} {K : Type ℓ} {V : Type κ} ⦃o : KeyOrder K⦄ where
  abbrev pub empty : Map K V
  empty = record { root = leaf; size = 0 }

  unfoldable pub get : K → Map K V → Option V
  get key m = find_node key m.root

  unfoldable pub contains : K → Map K V → Bool
  contains key m = elim (find_node key m.root) [ none ↦ false | some v ↦ true ]

  -- `none` is the null pointer that `insert` returns when the key is there.
  unfoldable pub insert : K → V → Map K V → Option (Map K V)
  insert key val m = elim (insert_from key val m.root) [
    | none ↦ none
    | some (t, climbing) ↦ some (record { root = t; size = m.size + 1 })
  ]

  unfoldable pub erase : K → Map K V → Map K V
  erase key m = elim (erase_from key true m.root) [
    | none ↦ m
    | some t ↦ record { root = t; size = m.size - 1 }
  ]

  -- `operator[]`, given the value that `Val()` makes: the value found and the map left behind.
  unfoldable pub subscript : K → V → Map K V → V × Map K V
  subscript key fresh m = elim (get key m) [
    | some v ↦ (v, m)
    | none ↦ elim (insert key fresh m) [ none ↦ (fresh, m) | some m' ↦ (fresh, m') ]
  ]

module _ {ℓ κ} {K : Type ℓ} {V : Type κ} ⦃o : KeyOrder K⦄ where
  -- A write through the reference to a key's value, if it is there.
  abbrev pub overwrite : K → V → Tree K V → Tree K V
  overwrite key val leaf = leaf
  overwrite key val (node h l k v r) =
      let left = overwrite key val l in
      let right = overwrite key val r in
      if o.eq k key
      then node h l k val r
      else if o.lt key k
      then node h left k v r
      else node h l k v right

  -- `map[key] = val`
  unfoldable pub assign : K → V → Map K V → Map K V
  assign key val m = elim (insert key val m) [
    | some m' ↦ m'
    | none ↦ record m { root = overwrite key val m.root }
  ]
