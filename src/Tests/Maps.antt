-- ===== src/Tests/Maps.antt =====
-- The hash map, with ints as keys, in two buckets.
use apgitproj.Base.{ℕ, ◌≡◌, none, some, arith, Text, codes, if◌then◌else◌}
use apgitproj.HashMap.{HashMap, new_map, put, get, remove, for_each}
use apgitproj.HashMap.Hashing.{int_key, text_key}
use apgitproj.HashMap.Nodes.{count}
use apgitproj.HashMap.Invariant.{IsHashed, new_map-IsHashed}
use apgitproj.HashMap.Methods.{put-IsHashed, get-put, get-remove, count-for_each}

abbrev empty : HashMap Text ℕ
empty = new_map 2

empty-IsHashed : IsHashed empty
empty-IsHashed = new_map-IsHashed 2 (omega arith)

abbrev users : HashMap Text ℕ
users = put empty (codes "ann") 1

users-IsHashed : IsHashed users
users-IsHashed = put-IsHashed empty empty-IsHashed (codes "ann") 1

get-put_example :
    get (put users (codes "bob") 2) (codes "ann")
    ≡ (if text_key.equal (codes "bob") (codes "ann") then some 2 else get users (codes "ann"))
get-put_example = get-put users users-IsHashed (codes "bob") 2 (codes "ann")

get-remove_example :
    get (remove users (codes "ann")).0 (codes "ann")
    ≡ (if text_key.equal (codes "ann") (codes "ann") then none else get users (codes "ann"))
get-remove_example = get-remove users users-IsHashed (codes "ann") (codes "ann")

count-for_each_example :
    count (codes "ann") (for_each users) ≡ elim (get users (codes "ann")) [ some _ ↦ 1 | none ↦ 0 ]
count-for_each_example = count-for_each users (codes "ann") users-IsHashed
