-- ===== src/Tests/Graphs.antt =====
-- Union-find on three nodes in a row, and a plan of two tables and one that the catalog lacks.
use apgitproj.Base.{
  ℕ, zero, suc, ◌<◌, ◌≢◌, refl, List, [], ◌∷◌, get_or, arith, replicate, some, codes,
}
use apgitproj.Disk.{Disk}
use apgitproj.HashMap.{new_map}
use apgitproj.HashMap.Hashing.{text_key}
use apgitproj.Catalog.{Catalog, register_table}
use apgitproj.Graph.{join_graph, optimize}
use apgitproj.Graph.Spanning.{IsLeastForest}
use apgitproj.Graph.Plan.{optimize-IsLeastForest}
use apgitproj.Tests.Storage.{people}
use apgitproj.Graph.{UnionFind, parent_of, find_root, unite}
use apgitproj.Graph.Link
use apgitproj.Graph.Unite.{United, unite-United}
use apgitproj.Graph.Find.{IsForest, Found, find_root-Found}

-- 2 below 1 below 0.
abbrev line : List ℕ
line = 0 ∷ 0 ∷ 1 ∷ []

abbrev line_ranks : ℕ → ℕ
line_ranks y = get_or (2 ∷ 1 ∷ 0 ∷ []) y 0

line-IsForest : IsForest line line_ranks
line-IsForest = record { closed = closed; rising = rising }
  where
    closed : (x : ℕ) → x < 3 → parent_of line x < 3
    closed zero h = omega arith
    closed (suc zero) h = omega arith
    closed (suc (suc zero)) h = omega arith
    closed (suc (suc (suc x))) h = omega arith

    rising : (x : ℕ) → x < 3 → parent_of line x ≢ x → line_ranks x < line_ranks (parent_of line x)
    rising zero h n = absurd (n refl)
    rising (suc zero) h n = omega arith
    rising (suc (suc zero)) h n = omega arith
    rising (suc (suc (suc x))) h n = absurd (omega arith)

line_bound : (y : ℕ) → y < 3 → line_ranks y < 3
line_bound zero h = omega arith
line_bound (suc zero) h = omega arith
line_bound (suc (suc zero)) h = omega arith
line_bound (suc (suc (suc y))) h = absurd (omega arith)

find_root-Found_example : Found line line_ranks 2 (find_root 3 line 2)
find_root-Found_example =
    find_root-Found 3 line line_ranks 2 3 line-IsForest (omega arith) line_bound (omega arith)

abbrev line_sets : UnionFind
line_sets = record { parents = line; ranks = 2 ∷ 1 ∷ 0 ∷ [] }

line_sets-IsValid : Link.IsValid line_sets 3
line_sets-IsValid = record { forest = line-IsForest; ranked = refl; low = line_bound }

unite-United_example : United line_sets 1 2 3 (unite line_sets 1 2)
unite-United_example =
    unite-United line_sets 1 2 3 line_sets-IsValid (omega arith) (omega arith) (omega arith)

abbrev tables : Catalog
tables =
    register_table (register_table (new_map 4) people) (record people { table_name = codes "pets" })

-- Two pages of zeros for each table.
abbrev files : Disk
files = λ name. some (replicate 8192 0)

optimize-IsLeastForest_example :
    IsLeastForest
      (join_graph tables files people.table_name (codes "pets" ∷ codes "none" ∷ [])).edges
      (optimize tables files people.table_name (codes "pets" ∷ codes "none" ∷ [])).mst_edges
optimize-IsLeastForest_example =
    optimize-IsLeastForest tables files people.table_name (codes "pets" ∷ codes "none" ∷ [])
