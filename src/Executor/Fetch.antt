-- ===== src/Executor/Fetch.antt =====
-- Executor.cpp: the calls of fetchPage for a page of a table.
use apgitproj.Base.{ℕ, ◌≤◌, ◌≡◌, subst, List, ◌∷◌, arith, some}
use apgitproj.Schema.{TableSchema}
use apgitproj.Catalog.{table_hash}
use apgitproj.DoublyLinkedList.Segments.{Cells}
use apgitproj.BufferPool.{Store, fetch_page}
use apgitproj.BufferPool.Frames.{frames}
use apgitproj.BufferPool.Invariant.{nothing}
use apgitproj.BufferPool.Evict.{used_inside}
use apgitproj.BufferPool.View.{Naming, view}
use apgitproj.BufferPool.Transparent.{IsSound, IsServed, fetch_page-IsServed}
use apgitproj.Executor.{fetch}

module _ (naming : Naming) (schema : TableSchema)
    (same_hash : naming.hash_of schema.file_path ≡ table_hash schema.table_name) where
  -- A fetch of a page of the table.
  pub fetch-IsServed :
      (s : Store) (cells : Cells ℕ) (pid : ℕ) (bytes : List ℕ)
      → IsSound naming s cells
      → 1 ≤ s.pool.capacity
      → naming.Known schema.file_path pid
      → view naming s schema.file_path pid ≡ some bytes
      → IsServed naming s schema.file_path pid bytes (fetch schema pid s)
  fetch-IsServed s cells pid bytes v h known there =
      subst
        (λ k. IsServed naming s schema.file_path pid bytes (fetch_page schema.file_path k pid s))
        same_hash (fetch_page-IsServed naming s cells v schema.file_path pid bytes known there h)

  pub served-capacity :
      (s : Store) (pid : ℕ) (bytes : List ℕ) (r : ℕ × Store)
      → IsServed naming s schema.file_path pid bytes r
      → 1 ≤ r.1.pool.capacity
  unfolding frames
  served-capacity s pid bytes r d =
      let inside =
        used_inside r.1.pool ((d.node, r.0) ∷ d.rest) r.0 nothing d.sound.keeps (ground arith) in
      omega (arith, inside.0)
