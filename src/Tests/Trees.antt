-- ===== src/Tests/Trees.antt =====
-- The AVL tree, on trees of a few entries.
use apgitproj.Base.{ℕ, ◌≡◌, pos, negsuc, pos_part, neg_part, none, some, filter_by}
use apgitproj.AvlTree.{AvlTree, new_tree, put, search, delete, range, in_order}
use apgitproj.AvlTree.Entries.{in_range}
use apgitproj.AvlTree.Methods.{
  IsValid, new_tree-IsValid, put-IsValid, delete-IsValid, search-put, search-delete, range-filter,
}

abbrev one : AvlTree ℕ
one = put new_tree (pos 1) 10

abbrev two : AvlTree ℕ
two = put one (pos 2) 20

-- The third key makes the tree rotate.
abbrev three : AvlTree ℕ
three = put two (pos 3) 30

two-IsValid : IsValid two
two-IsValid = put-IsValid one (pos 2) 20 (put-IsValid new_tree (pos 1) 10 new_tree-IsValid)

three-IsValid : IsValid three
three-IsValid = put-IsValid two (pos 3) 30 two-IsValid

put-IsValid_example : IsValid three
put-IsValid_example = put-IsValid two (pos 3) 30 two-IsValid

delete-IsValid_example : IsValid (delete three (pos 2))
delete-IsValid_example = delete-IsValid three (pos 2) three-IsValid

search-put_example : search (put three (negsuc 4) 50) (negsuc 4) ≡ some 50
unfolding pos_part neg_part
search-put_example = search-put three (negsuc 4) (negsuc 4) 50 three-IsValid

search-delete_example : search (delete three (pos 2)) (pos 2) ≡ none
unfolding pos_part neg_part
search-delete_example = search-delete three (pos 2) (pos 2) three-IsValid

range-filter_example :
    range three (pos 2) (pos 9) ≡ filter_by (in_range (pos 2) (pos 9)) (in_order three.root)
range-filter_example = range-filter three (pos 2) (pos 9) three-IsValid
