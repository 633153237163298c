-- ===== src/Graph.antt =====
-- src/common/Graph.h and src/optimizer/JoinOptimizer.cpp: the join graph, union-find and the order
-- of the joins.
pub mod Chosen
pub mod Find
pub mod Joined
pub mod Kruskal
pub mod Link
pub mod Plan
pub mod Sort
pub mod Spanning
pub mod Start
pub mod Unite
use apgitproj.Base.{
  ℕ, zero, suc, ◌+◌, ◌-◌, ◌*◌, Bool, true, false, ◌||◌, ◌&&◌, List, [], ◌∷◌, ◌++◌, ℤ, pos, negsuc,
  length, set, get_or, replicate, ltb, leb, ◌==◌, if◌then◌else◌, Text, str_eq, truncate, Option,
  none, some,
}
use apgitproj.Schema.{TableSchema, records_per_page}
use apgitproj.Catalog.{Catalog, get_schema}
use apgitproj.Disk.{Disk, page_count}

-- `weight` is a number of rows; as a `float` it is exact up to 2 ^ 24.
pub record Edge : Type 0 where
  pub u : ℕ
  pub v : ℕ
  pub weight : ℕ
  pub table_u : Text
  pub table_v : Text

pub record UnionFind : Type 0 where
  pub parents : List ℕ
  pub ranks : List ℕ

unfoldable pub counting : ℕ → ℕ → List ℕ
counting i zero = []
counting i (suc n) = i ∷ counting (suc i) n

unfoldable pub new_union_find : ℕ → UnionFind
new_union_find n = record { parents = counting 0 n; ranks = replicate n 0 }

abbrev pub parent_of : List ℕ → ℕ → ℕ
parent_of ps x = get_or ps x 0

-- The loop of `find`, with path halving. The rank rises with each round, so fuel past the greatest
-- rank is enough.
unfoldable pub find_root : ℕ → List ℕ → ℕ → ℕ × List ℕ
find_root zero ps x = (x, ps)
find_root (suc fuel) ps x =
    let p = parent_of ps (parent_of ps x) in
    let next = find_root fuel (set ps x p) p in if parent_of ps x == x then (x, ps) else next

-- `parent[py] = px`, and the rank.
unfoldable pub link : UnionFind → ℕ → ℕ → UnionFind
link uf px py = record {
  parents = set uf.parents py px;
  ranks =
      if get_or uf.ranks px 0 == get_or uf.ranks py 0
      then set uf.ranks px (get_or uf.ranks px 0 + 1)
      else uf.ranks;
}

unfoldable pub unite : UnionFind → ℕ → ℕ → Bool × UnionFind
unite uf x y =
    let n = length uf.parents in
    let a = find_root n uf.parents x in
    let b = find_root n a.1 y in
    let uf' : UnionFind = record uf { parents = b.1 } in
    if a.0 == b.0
    then (false, uf')
    else if ltb (get_or uf.ranks a.0 0) (get_or uf.ranks b.0 0)
    then (true, link uf' b.0 a.0)
    else (true, link uf' a.0 b.0)

abbrev pub blank_edge : Edge
blank_edge = record { u = 0; v = 0; weight = 0; table_u = []; table_v = [] }

-- The index of the least weight from `j` on, `n` edges, given the least so far.
unfoldable pub min_index : List Edge → ℕ → ℕ → ℕ → ℕ
min_index es j zero min_idx = min_idx
min_index es j (suc n) min_idx = min_index es (suc j) n (
    if ltb (get_or es j blank_edge).weight (get_or es min_idx blank_edge).weight
    then j
    else min_idx)

unfoldable pub sort_from : ℕ → ℕ → List Edge → List Edge
sort_from i zero es = es
sort_from i (suc n) es =
    let m = min_index es (suc i) (length es - suc i) i in
    sort_from (suc i) n
      (if m == i then es else set (set es i (get_or es m blank_edge)) m (get_or es i blank_edge))

unfoldable pub sort_edges : List Edge → List Edge
sort_edges es = sort_from 0 (length es - 1) es

pub record JoinGraph : Type 0 where
  pub names : List Text
  pub row_counts : List ℕ
  pub edges : List Edge

abbrev pub max_nodes : ℕ
max_nodes = 16

unfoldable pub add_table : JoinGraph → Text → ℕ → JoinGraph
add_table g name rows = if leb max_nodes (length g.names) then g else record g {
  names = g.names ++ truncate 64 name ∷ [];
  row_counts = g.row_counts ++ rows ∷ [];
}

unfoldable pub name_index : ℕ → List Text → Text → Option ℕ
name_index i [] name = none
name_index i (n ∷ ns) name = if str_eq n name then some i else name_index (suc i) ns name

-- `none` is -1.
unfoldable pub table_index : JoinGraph → Text → Option ℕ
table_index g name = name_index 0 g.names name

-- An edge weighs what the smaller of its tables does.
abbrev pub join_edge : JoinGraph → Text → Text → ℕ → ℕ → Edge
join_edge g a b u v =
    let ru = get_or g.row_counts u 0 in
    let rv = get_or g.row_counts v 0 in
    record {
      u = u;
      v = v;
      weight = if ltb ru rv then ru else rv;
      table_u = truncate 64 a;
      table_v = truncate 64 b;
    }

unfoldable pub add_join : JoinGraph → Text → Text → JoinGraph
add_join g a b = elim (table_index g a) [
  | none ↦ g
  | some u ↦ elim (table_index g b) [
    | none ↦ g
    | some v ↦
        if leb (max_nodes * max_nodes) (length g.edges)
        then g
        else record g { edges = g.edges ++ join_edge g a b u v ∷ [] }
  ]
]

-- The loop over the sorted edges, while fewer than `room` are still to be chosen.
unfoldable pub choose_edges : List Edge → ℕ → UnionFind → List Edge
choose_edges [] room uf = []
choose_edges (e ∷ es) zero uf = []
choose_edges (e ∷ es) (suc room) uf =
    let r = unite uf e.u e.v in
    let taken = choose_edges es room r.1 in
    let left = choose_edges es (suc room) r.1 in if r.0 then e ∷ taken else left

unfoldable pub compute_mst : JoinGraph → List Edge
compute_mst g =
    choose_edges (sort_edges g.edges) (length g.names - 1) (new_union_find (length g.names))

pub record JoinPlan : Type 0 where
  pub ordered_tables : List Text
  pub mst_edges : List Edge

unfoldable pub row_estimate : Catalog → Disk → Text → ℕ
row_estimate c d name = elim (get_schema c name) [
  | none ↦ 0
  | some s ↦ page_count d s.file_path * records_per_page s
]

unfoldable pub add_tables : Catalog → Disk → List Text → JoinGraph → JoinGraph
add_tables c d [] g = g
add_tables c d (t ∷ ts) g = add_tables c d ts (add_table g t (row_estimate c d t))

-- An edge from `a` to each of the tables, and so on for each table.
unfoldable pub add_joins_from : JoinGraph → Text → List Text → JoinGraph
add_joins_from g a [] = g
add_joins_from g a (b ∷ bs) = add_joins_from (add_join g a b) a bs

unfoldable pub add_joins : JoinGraph → List Text → JoinGraph
add_joins g [] = g
add_joins g (a ∷ bs) = add_joins (add_joins_from g a bs) bs

unfoldable pub ends_of : List Edge → List Text
ends_of [] = []
ends_of (e ∷ es) = e.table_v ∷ ends_of es

unfoldable pub shortened : List Text → List Text
shortened [] = []
shortened (t ∷ ts) = truncate 64 t ∷ shortened ts

-- The tables and edges that `optimize` puts into its graph.
unfoldable pub join_graph : Catalog → Disk → Text → List Text → JoinGraph
join_graph c d table joins =
    let g0 : JoinGraph = record { names = []; row_counts = []; edges = [] } in
    add_joins (add_tables c d (table ∷ joins) g0) (shortened (table ∷ joins))

unfoldable pub optimize : Catalog → Disk → Text → List Text → JoinPlan
optimize c d table joins =
    let mst = compute_mst (join_graph c d table joins) in
    record {
      ordered_tables = elim mst [
        | [] ↦ shortened (table ∷ joins)
        | e ∷ es ↦ e.table_u ∷ ends_of (e ∷ es)
      ];
      mst_edges = mst;
    }
