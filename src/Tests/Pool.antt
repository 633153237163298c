-- ===== src/Tests/Pool.antt =====
-- A pool of two frames over a file of one page.
use apgitproj.Base.{
  ℕ, ◌≤◌, ◌<◌, ◌≡◌, refl, ap, ◌∙◌, sym, subst, true, [], ◌∷◌, pos, length, length-replicate,
  replicate, Text, codes, truncate, none, some, arith,
}
use apgitproj.Memory.{length-write_bytes}
use apgitproj.HashMap.Hashing.{int_key}
use apgitproj.HashMap.Invariant.{get-new_map}
use apgitproj.Page.{Page, init, blank_page}
use apgitproj.Disk.{Disk, opened, extend, write_page, page_count}
use apgitproj.Disk.Files.{IsWritable, after_write, write_page-file}
use apgitproj.Disk.Blocks.{block, block-write_page}
use apgitproj.Catalog.{table_hash}
use apgitproj.DoublyLinkedList.Segments.{Cells}
use apgitproj.BufferPool.{
  BufferPool, Store, page_of, info_of, free_stack, new_pool, fetch_page, flush_all, make_page_key,
}
use apgitproj.BufferPool.Frames.{frames}
use apgitproj.BufferPool.Invariant.{Keeps, just, new_pool-Keeps}
use apgitproj.BufferPool.Evict.{pop_free-Keeps, true-false}
use apgitproj.BufferPool.Register.{filled, filled-Keeps, filled-mapped, filled-page, filled-info}
use apgitproj.DoublyLinkedList.{push_front}
use apgitproj.HashMap.{get}
use apgitproj.BufferPool.Load.{IsPage, init-IsPage, page_count-some}
use apgitproj.BufferPool.Fetch.{Fetched, fetch_page-Fetched}
use apgitproj.BufferPool.Keys.{make_page_key-injective}
use apgitproj.BufferPool.View.{Naming, IsNamed, view, view-get}
use apgitproj.BufferPool.Transparent.{IsSound, IsServed, fetch_page-IsServed}
use apgitproj.BufferPool.Saved.{flush_all-saved}

abbrev pub path : Text
path = codes "people.db"

abbrev pub hash : ℕ
hash = table_hash (codes "people")

abbrev pub first_page : Page
first_page = init blank_page (pos 0)

first_page-IsWritable : IsWritable first_page 0
first_page-IsWritable =
    let v = init-IsPage blank_page 0 in record { number = v.number; size = v.size }

abbrev pub no_files : Disk
no_files = λ name. none

abbrev pub disk : Disk
disk = (write_page no_files path first_page).1

length-file : length (after_write no_files path first_page 0) ≡ 4096
unfolding extend opened
length-file =
    length-write_bytes (replicate 4096 0) 0 first_page.bytes ∙ length-replicate {A = ℕ} 4096 0

pub one_page : page_count disk path ≡ 1
one_page =
    let file = write_page-file no_files path first_page 0 first_page-IsWritable in
    omega
      (arith, page_count-some disk path (after_write no_files path first_page 0) file, length-file)

pub short_path : truncate 256 path ≡ path
unfolding truncate
short_path = refl

abbrev pub naming : Naming
naming = record {
  Known = λ name i. (name ≡ path) × (i < 1000);
  hash_of = λ name. hash;
  short = λ k. subst (λ p. truncate 256 p ≡ p) (sym k.0) short_path;
  apart = λ {path} {other} {i} {j} k m e.
      (k.0 ∙ sym m.0, make_page_key-injective hash i j (omega (arith, k.1)) (omega (arith, m.1)) e);
}

abbrev pub store : Store
store = record { pool = new_pool 2; disk = disk }

pub store-IsSound : IsSound naming store []
unfolding frames
store-IsSound = record {
  keeps = new_pool-Keeps 2 (omega arith);
  synced = λ f u. absurd (omega arith);
}

pub has_frames : 1 ≤ store.pool.capacity
unfolding new_pool
has_frames = omega arith

pub first_page-known : naming.Known path 0
first_page-known = (refl, omega arith)

pub first_page-view : view naming store path 0 ≡ some first_page.bytes
unfolding new_pool
first_page-view =
    view-get naming store path 0 none (get-new_map 8 (make_page_key hash 0))
    ∙ block-write_page no_files path first_page 0 first_page-IsWritable

-- A pool of one frame with a page that its file does not have yet.
abbrev idle : BufferPool
idle = record (new_pool 1) { free_count = 0 }

idle-Keeps : Keeps idle [] (just 0)
unfolding new_pool free_stack
idle-Keeps = pop_free-Keeps (new_pool 1) [] 0 (new_pool-Keeps 1 (omega arith)) refl

abbrev pub new_page : Page
new_page = record first_page { is_dirty = true }

new_page-IsPage : IsPage new_page 0
unfolding init
new_page-IsPage =
    let v = init-IsPage blank_page 0 in record { valid = refl; number = v.number; size = v.size }

idle_miss : get idle.frame_map (make_page_key hash 0) ≡ none
unfolding new_pool
idle_miss = get-new_map 4 (make_page_key hash 0)

abbrev pub busy : Store
busy = record { pool = filled idle path hash 0 0 new_page; disk = no_files }

abbrev pub busy_cells : Cells ℕ
busy_cells = ((push_front 0 idle.lru_list).1, 0) ∷ []

busy-IsNamed : IsNamed naming no_files (info_of busy.pool 0) (page_of busy.pool 0)
busy-IsNamed =
    rw
      (
        filled-info idle [] path hash 0 0 new_page idle-Keeps new_page-IsPage idle_miss,
        filled-page idle [] path hash 0 0 new_page idle-Keeps new_page-IsPage idle_miss,
      )
      (record {
        known = (short_path, omega arith);
        hashed = refl;
        clean = λ c. absurd (true-false c);
      })

only_zero : (f : ℕ) → 1 ≤ frames f busy_cells → 0 ≡ f
unfolding frames
only_zero f u = ground arith

pub busy-IsSound : IsSound naming busy busy_cells
busy-IsSound = record {
  keeps = filled-Keeps idle [] path hash 0 0 new_page idle-Keeps new_page-IsPage idle_miss;
  synced = λ f u.
      subst (λ g. IsNamed naming no_files (info_of busy.pool g) (page_of busy.pool g))
        (only_zero f u) busy-IsNamed;
}

pub busy-view : view naming busy path 0 ≡ some first_page.bytes
busy-view =
    view-get naming busy path 0 (some 0)
      (filled-mapped idle [] path hash 0 0 new_page idle-Keeps new_page-IsPage idle_miss)
    ∙ ap (λ (q : Page). some q.bytes)
        (filled-page idle [] path hash 0 0 new_page idle-Keeps new_page-IsPage idle_miss)

fetch_page-Fetched_example : Fetched path hash 0 store (fetch_page path hash 0 store)
fetch_page-Fetched_example =
    fetch_page-Fetched path hash 0 store [] (new_pool-Keeps 2 (omega arith)) has_frames

fetch_page-IsServed_example :
    IsServed naming store path 0 first_page.bytes (fetch_page path hash 0 store)
fetch_page-IsServed_example =
    fetch_page-IsServed naming store [] store-IsSound path 0 first_page.bytes first_page-known
      first_page-view has_frames

flush_all-saved_example : block (flush_all store).disk path 0 ≡ some first_page.bytes
flush_all-saved_example =
    flush_all-saved naming store [] store-IsSound path 0 first_page.bytes first_page-known
      first_page-view
