-- ===== src/Kstd/Map/Examples.antt =====
-- Maps from small numbers: tests of kernel/kstd/map.hpp, and the theorems at them.
use nusa_os.Common.{ℕ, ◌+◌, ◌≡◌, refl, none, some, [], ◌∷◌, if◌then◌else◌, arith}
use nusa_os.Kstd.Map.Key.{nat_order}
use nusa_os.Kstd.Map.{
  leaf, node, Map, get, contains, insert, erase, find_node, find_within, insert_from, erase_from,
  rebalance, replace,
}
use nusa_os.Kstd.Map.Balance.{to_list}
use nusa_os.Kstd.Map.Refine.{IsValid, get-insert, get-erase}
use nusa_os.Kstd.Map.Bounds.{find_within-rounds}

-- 1, 2 and 3 with the values 10, 20 and 30, as `insert` leaves them
abbrev three : Map ℕ ℕ
three = record { root = node 2 (node 1 leaf 1 10 leaf) 2 20 (node 1 leaf 3 30 leaf); size = 3 }

abbrev four : Map ℕ ℕ
four = record {
  root = node 3 (node 1 leaf 1 10 leaf) 2 20 (node 2 leaf 3 30 (node 1 leaf 4 40 leaf));
  size = 4;
}

abbrev two_in_a_row : Map ℕ ℕ
two_in_a_row = record { root = node 2 leaf 1 10 (node 1 leaf 2 20 leaf); size = 2 }

-- A rotation at the third key in a row.
insert_rotates : insert 3 30 two_in_a_row ≡ some three
unfolding insert insert_from rebalance
insert_rotates = refl

insert_grows : insert 4 40 three ≡ some four
unfolding insert insert_from rebalance
insert_grows = refl

-- The root is replaced by its successor.
erase_root : to_list (erase 2 four).root ≡ (1, 10) ∷ (3, 30) ∷ (4, 40) ∷ []
unfolding erase erase_from replace rebalance
erase_root = refl

three-IsValid : IsValid three
three-IsValid = record {
  balanced = omega arith;
  sorted = ((refl, (refl, tt)), ((refl, tt), (tt, tt)));
  counted = refl;
}

get-insert_example :
    IsValid four
    × (get 4 three ≡ none)
    × (get 4 four ≡ (if nat_order.eq 4 4 then some 40 else get 4 three))
unfolding insert insert_from rebalance
get-insert_example = get-insert 4 4 40 three four three-IsValid refl

get-erase_example :
    IsValid (erase 2 three)
    × (get 3 (erase 2 three) ≡ (if nat_order.eq 2 3 then none else get 3 three))
    × ((erase 2 three).size + (if contains 2 three then 1 else 0) ≡ 3)
get-erase_example = get-erase 2 3 three three-IsValid

find_within-rounds_example : find_within 5 3 three.root ≡ some (find_node 3 three.root)
find_within-rounds_example = find_within-rounds three 3 5 three-IsValid (omega arith)
