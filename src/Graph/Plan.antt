-- ===== src/Graph/Plan.antt =====
-- JoinOptimizer.cpp: the edges of a plan are a least forest of the graph of its tables.
use mathlib.Core.Logic.{∥∥₁_elim}
use mathlib.Core.HLevel.{×_prop}
use native.Mathlib.Bridge.{le_prop}
use mathlib.Core.List.{Memᴰ}
use mathlib.Core.List.Memᴰ
use apgitproj.Base.{
  ℕ, suc, ◌+◌, ◌<◌, ◌≡◌, sym, subst, ◌⊎◌, inl, inr, List, [], ◌∷◌, length, length-append,
  Bool-cases, Option-cases, some, none-some, some-injective, ◌*◌, leb, Text, truncate, str_eq,
  arith,
}
use apgitproj.Catalog.{Catalog}
use apgitproj.Disk.{Disk}
use apgitproj.Graph.{
  Edge, JoinGraph, max_nodes, add_table, name_index, table_index, add_join, add_tables,
  add_joins_from, add_joins, row_estimate, join_graph, optimize, join_edge, shortened,
}
use apgitproj.Graph.Spanning.{IsLeastForest, compute_mst-IsLeastForest}

name_index-below :
    (i : ℕ) (names : List Text) (name : Text) (k : ℕ)
    → name_index i names name ≡ some k
    → k < i + length names
unfolding name_index
name_index-below i [] name k h = absurd (none-some k h)
name_index-below i (n ∷ ns) name k h = elim (Bool-cases (str_eq n name)) [
  | inl e ↦ let found : i ≡ k = some-injective (rw e at h) in omega (arith, found)
  | inr e ↦ omega (arith, name_index-below (suc i) ns name k (rw e at h))
]

-- A graph with a table, whose edges have their ends among the tables.
record IsJoinGraph (g : JoinGraph) : Type 0 where
  some_table : 0 < length g.names
  inside : (f : Edge) → Memᴰ f g.edges → (f.u < length g.names) × (f.v < length g.names)

new_edge-inside :
    (g : JoinGraph) (a b : Text) (e : Edge)
    → IsJoinGraph g
    → table_index g a ≡ some e.u
    → table_index g b ≡ some e.v
    → (f : Edge) → Memᴰ f g.edges ⊎ Memᴰ f (e ∷ [])
    → (f.u < length g.names) × (f.v < length g.names)
unfolding table_index
new_edge-inside g a b e ok at_u at_v f (inl m) = ok.inside f m
new_edge-inside g a b e ok at_u at_v f (inr m) =
    subst (λ h. (h.u < length g.names) × (h.v < length g.names)) (sym (Memᴰ.eq_of_singleton m))
      (
        omega (arith, name_index-below 0 g.names a e.u at_u),
        omega (arith, name_index-below 0 g.names b e.v at_v),
      )

add_join-IsJoinGraph : (g : JoinGraph) (a b : Text) → IsJoinGraph g → IsJoinGraph (add_join g a b)
unfolding add_join
add_join-IsJoinGraph g a b ok = elim (Option-cases (table_index g a)) [
  | inl e ↦ rw (add_join, e) ok
  | inr (u, e) ↦ elim (Option-cases (table_index g b)) [
    | inl d ↦ rw (add_join, e, d) ok
    | inr (v, d) ↦ elim (Bool-cases (leb (max_nodes * max_nodes) (length g.edges))) [
      | inl full ↦ rw (add_join, e, d, full) ok
      | inr room ↦
          rw (add_join, e, d, room)
            (record {
              some_table = ok.some_table;
              inside = λ f m.
                  new_edge-inside g a b (join_edge g a b u v) ok e d f
                    (Memᴰ.append_cases g.edges m);
            })
    ]
  ]
]

add_table-IsJoinGraph :
    (g : JoinGraph) (name : Text) (rows : ℕ)
    → ((f : Edge) → Memᴰ f g.edges → (f.u < length g.names) × (f.v < length g.names))
    → IsJoinGraph (add_table g name rows)
unfolding add_table
add_table-IsJoinGraph g name rows inside = elim (Bool-cases (leb max_nodes (length g.names))) [
  | inl e ↦ rw e (record { some_table = ground arith; inside = inside })
  | inr e ↦
      let size = length-append g.names (truncate 64 name ∷ []) in
      rw e (record {
        some_table = omega (arith, size);
        inside =
            λ f m. let (hu, hv) = inside f m in (omega (arith, size, hu), omega (arith, size, hv));
      })
]

add_tables-IsJoinGraph :
    (c : Catalog) (d : Disk) (tables : List Text) (g : JoinGraph)
    → IsJoinGraph g
    → IsJoinGraph (add_tables c d tables g)
unfolding add_tables
add_tables-IsJoinGraph c d [] g ok = ok
add_tables-IsJoinGraph c d (t ∷ ts) g ok =
    add_tables-IsJoinGraph c d ts (add_table g t (row_estimate c d t))
      (add_table-IsJoinGraph g t (row_estimate c d t) ok.inside)

add_joins_from-IsJoinGraph :
    (g : JoinGraph) (a : Text) (bs : List Text)
    → IsJoinGraph g
    → IsJoinGraph (add_joins_from g a bs)
unfolding add_joins_from
add_joins_from-IsJoinGraph g a [] ok = ok
add_joins_from-IsJoinGraph g a (b ∷ bs) ok =
    add_joins_from-IsJoinGraph (add_join g a b) a bs (add_join-IsJoinGraph g a b ok)

add_joins-IsJoinGraph :
    (g : JoinGraph) (tables : List Text) → IsJoinGraph g → IsJoinGraph (add_joins g tables)
unfolding add_joins
add_joins-IsJoinGraph g [] ok = ok
add_joins-IsJoinGraph g (a ∷ bs) ok =
    add_joins-IsJoinGraph (add_joins_from g a bs) bs (add_joins_from-IsJoinGraph g a bs ok)

join_graph-IsJoinGraph :
    (c : Catalog) (d : Disk) (table : Text) (joins : List Text)
    → IsJoinGraph (join_graph c d table joins)
unfolding join_graph add_tables
join_graph-IsJoinGraph c d table joins =
    let g0 : JoinGraph = record { names = []; row_counts = []; edges = [] } in
    let rows = row_estimate c d table in
    add_joins-IsJoinGraph (add_tables c d (table ∷ joins) g0) (shortened (table ∷ joins)) (
      add_tables-IsJoinGraph c d joins (add_table g0 table rows)
        (add_table-IsJoinGraph g0 table rows (λ f m. elim m [ ])))

pair_prop : {a b c d : ℕ} → IsProp ((a < b) × (c < d))
pair_prop = ×_prop le_prop le_prop

-- The edges of the plan that `optimize` makes, for any catalog, disk and tables, are edges of the
-- graph of the tables, each joins tables that those before it do not, and what edges of the graph
-- of at most some weight join, edges of the plan of at most that weight join.
pub optimize-IsLeastForest :
    (c : Catalog) (d : Disk) (table : Text) (joins : List Text)
    → IsLeastForest (join_graph c d table joins).edges (optimize c d table joins).mst_edges
unfolding optimize
optimize-IsLeastForest c d table joins =
    let ok = join_graph-IsJoinGraph c d table joins in
    compute_mst-IsLeastForest (join_graph c d table joins) ok.some_table
      (λ f m. ∥∥₁_elim m pair_prop (ok.inside f))
