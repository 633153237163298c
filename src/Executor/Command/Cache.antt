-- ===== src/Executor/Command/Cache.antt =====
-- Executor.cpp: getOrBuildIndex keeps at most eight indices, and builds one of them once.
use apgitproj.Base.{
  ℕ, ◌≤◌, ◌≡◌, inl, inr, refl, ap, sym, ◌&&◌, List, [], ◌∷◌, ◌++◌, ℤ, length, length-append, leb,
  str_eq, str_eq_refl, arith, Option, none, some, none-some, Bool-cases, Option-cases, Text,
  truncate,
}
use apgitproj.Doubles.{Doubles}
use apgitproj.HashMap.Hashing.{int_equal, int_equal_iff}
use apgitproj.Catalog.{get_schema}
use apgitproj.Index.{Index, new_index, build}
use apgitproj.Executor.Command.{CachedIndex, Executor, max_tables, cached, get_or_build_index}

-- An entry behind those that do not have the index.
cached-append :
    (cs : List CachedIndex) (table : Text) (col : ℤ) (idx : Index)
    → cached cs table col ≡ none
    → cached (cs ++ record { table = table; col = col; index = idx } ∷ []) table col ≡ some idx
unfolding cached
cached-append [] table col idx e = rw (str_eq_refl table, (int_equal_iff col col).1 refl) refl
cached-append (c ∷ cs) table col idx e =
    elim (Bool-cases (str_eq c.table table && int_equal c.col col)) [
      | inl s ↦ absurd (none-some c.index (sym (rw s at e)))
      | inr s ↦ rw s (cached-append cs table col idx (rw s at e))
    ]

module _ (F : Doubles) (to_bytes : F.Double → List ℕ) (of_bytes : List ℕ → F.Double) (table : Text)
    (col : ℤ) where
  -- What a call gives: no more than eight indices, and an index that the next call finds.
  pub record IsCached (e : Executor) (r : Option Index × Executor) : Type 0 where
    pub bounded : length r.1.indices ≤ max_tables
    pub again :
        (idx : Index)
        → r.0 ≡ some idx
        → get_or_build_index F to_bytes of_bytes table col r.1 ≡ (some idx, r.1)

  -- For a name that fits into the table of the names, `getOrBuildIndex` keeps the bound of the
  -- cache, and when it gives an index, the next call for the same column gives it again and changes
  -- nothing.
  pub get_or_build_index-IsCached :
      (e : Executor)
      → truncate 64 table ≡ table
      → length e.indices ≤ max_tables
      → IsCached e (get_or_build_index F to_bytes of_bytes table col e)
  unfolding get_or_build_index
  get_or_build_index-IsCached e short h = elim (Option-cases (cached e.indices table col)) [
    | inr (idx, hit) ↦
        rw (hit, get_or_build_index)
          (record {
            bounded = h;
            again = λ j q. rw (hit, get_or_build_index) (ap (λ (o : Option Index). (o, e)) q);
          })
    | inl miss ↦ elim (Bool-cases (leb max_tables (length e.indices))) [
      | inl full ↦
          rw (miss, full, get_or_build_index)
            (record { bounded = h; again = λ j q. absurd (none-some j q) })
      | inr room ↦ elim (Option-cases (get_schema e.catalog table)) [
        | inl unknown ↦
            rw (miss, room, unknown, get_or_build_index)
              (record { bounded = h; again = λ j q. absurd (none-some j q) })
        | inr (schema, there) ↦
            let idx = build to_bytes of_bytes schema col e.store.disk schema.file_path new_index in
            let entry : CachedIndex = record { table = table; col = col; index = idx } in
            let found = cached-append e.indices table col idx miss in
            let size = length-append e.indices (entry ∷ []) in
            rw (miss, room, there, short, get_or_build_index)
              (record {
                bounded = ground (arith, size);
                again = λ j q.
                    rw (found, get_or_build_index)
                      (ap
                        (λ (o : Option Index). (o, record e { indices = e.indices ++ entry ∷ [] }))
                        q);
              })
      ]
    ]
  ]
