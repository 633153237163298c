-- ===== src/BufferPool.antt =====
-- src/storage/BufferPool.h: the pool of frames that hold pages of files, with the order of their
-- use. Page numbers and hashes of tables are natural; a `Page*` into the pool is the number of its
-- frame. The key is computed in 32 bits, and a product that does not fit wraps around.
pub mod Frames
pub mod Invariant
pub mod Load
pub mod Evict
pub mod Take
pub mod Register
pub mod Fetch
pub mod View
pub mod Spill
pub mod Fill
pub mod Transparent
pub mod Change
pub mod Flush
pub mod Saved
pub mod Update
pub mod Keys
use apgitproj.Base.{
  ℕ, zero, suc, ◌+◌, ◌-◌, ◌*◌, ◌%◌, ◌^◌, Bool, true, false, ◌&&◌, Option, none, some, List, [], ◌∷◌,
  ℤ, pos, negsuc, set, get_or, replicate, ltb, ◌==◌, if◌then◌else◌, Text, truncate,
}
use apgitproj.HashMap.{HashMap, new_map, get, put, remove}
use apgitproj.HashMap.Hashing.{int_key}
use apgitproj.Page.{Page, blank_page, init}
use apgitproj.Disk.{Disk, write_page, read_page, page_count}
use apgitproj.DoublyLinkedList.{
  Pointer, DoublyLinkedList, new_list, push_front, move_to_front, pop_tail,
}

-- The `int` with these 32 bits.
unfoldable pub wrap_int : ℕ → ℤ
wrap_int n = let low = n % 2 ^ 32 in if ltb low (2 ^ 31) then pos low else negsuc (2 ^ 32 - 1 - low)

unfoldable pub make_page_key : ℕ → ℕ → ℤ
make_page_key table_hash page_id = wrap_int (table_hash * 100000 + page_id)

pub record FrameInfo : Type 0 where
  pub frame_index : ℕ
  pub table_hash : ℕ
  pub page_id : ℕ
  pub file_path : Text

-- `FrameInfo{}`.
abbrev pub blank_info : FrameInfo
blank_info = record { frame_index = 0; table_hash = 0; page_id = 0; file_path = [] }

pub record BufferPool : Type 0 where
  pub capacity : ℕ
  pub pages : List Page
  pub frame_infos : List FrameInfo
  pub lru_nodes : List Pointer
  pub lru_list : DoublyLinkedList ℕ
  pub frame_map : HashMap ℤ ℕ
  pub free_frames : List ℕ
  pub free_count : ℕ
  pub eviction_count : ℕ

-- capacity - 1, .., 1, 0.
unfoldable pub free_stack : ℕ → List ℕ
free_stack zero = []
free_stack (suc n) = n ∷ free_stack n

unfoldable pub new_pool : ℕ → BufferPool
new_pool capacity = record {
  capacity = capacity;
  pages = replicate capacity blank_page;
  frame_infos = replicate capacity blank_info;
  lru_nodes = replicate capacity none;
  lru_list = new_list;
  frame_map = new_map (capacity * 4);
  free_frames = free_stack capacity;
  free_count = capacity;
  eviction_count = 0;
}

abbrev pub page_of : BufferPool → ℕ → Page
page_of p frame = get_or p.pages frame blank_page

abbrev pub info_of : BufferPool → ℕ → FrameInfo
info_of p frame = get_or p.frame_infos frame blank_info

abbrev pub node_of : BufferPool → ℕ → Pointer
node_of p frame = get_or p.lru_nodes frame none

abbrev pub key_of : FrameInfo → ℤ
key_of fi = make_page_key fi.table_hash fi.page_id

-- A pool with the disk below it.
pub record Store : Type 0 where
  pub pool : BufferPool
  pub disk : Disk

-- `moveToFront` of a node that the pool has; a null pointer is not a case of the code.
abbrev pub touch : Pointer → DoublyLinkedList ℕ → DoublyLinkedList ℕ
touch none l = l
touch (some node) l = move_to_front node l

-- The frame of the page that was used least recently, emptied.
unfoldable pub evict_lru : Store → ℕ × Store
evict_lru s =
    let p = s.pool in
    let popped = pop_tail 0 p.lru_list in
    let frame = popped.0 in
    let fi = info_of p frame in
    let page = page_of p frame in
    (
      frame,
      record {
        pool = record p {
          pages = set p.pages frame blank_page;
          lru_nodes = set p.lru_nodes frame none;
          lru_list = popped.1;
          frame_map = (remove p.frame_map (key_of fi)).0;
          eviction_count = suc p.eviction_count;
        };
        disk = if page.is_dirty then (write_page s.disk fi.file_path page).1 else s.disk;
      },
    )

-- A frame for a page that is not in the pool.
unfoldable pub take_frame : ℕ → Store → ℕ × Store
take_frame zero s = evict_lru s
take_frame (suc n) s =
    (get_or s.pool.free_frames n 0, record s { pool = record s.pool { free_count = n } })

-- The page as it comes from its file, or initialised when the file does not have it.
unfoldable pub load_page : Disk → Text → ℕ → Page → Page
load_page d path page_id page =
    let pg = init page (pos page_id) in
    if ltb page_id (page_count d path) then (read_page d path page_id pg).1 else pg

unfoldable pub register_frame : Text → ℕ → ℕ → ℕ → Store → Store
register_frame path table_hash page_id frame s =
    let p = s.pool in
    let fi : FrameInfo = record {
      frame_index = frame;
      table_hash = table_hash;
      page_id = page_id;
      file_path = truncate 256 path;
    } in
    let pushed = push_front frame p.lru_list in
    record s {
      pool = record p {
        pages = set p.pages frame (load_page s.disk path page_id (page_of p frame));
        frame_infos = set p.frame_infos frame fi;
        frame_map = put p.frame_map (make_page_key table_hash page_id) frame;
        lru_list = pushed.0;
        lru_nodes = set p.lru_nodes frame (some pushed.1);
      };
    }

unfoldable pub fetch_page : Text → ℕ → ℕ → Store → ℕ × Store
fetch_page path table_hash page_id s =
    let p = s.pool in
    elim (get p.frame_map (make_page_key table_hash page_id)) [
      | some frame ↦
          (frame, record s { pool = record p { lru_list = touch (node_of p frame) p.lru_list } })
      | none ↦
          let taken = take_frame p.free_count s in
          (taken.0, register_frame path table_hash page_id taken.0 taken.1)
    ]

unfoldable pub mark_dirty : ℕ → ℕ → BufferPool → BufferPool
mark_dirty table_hash page_id p = elim (get p.frame_map (make_page_key table_hash page_id)) [
  | none ↦ p
  | some frame ↦ record p {
    pages = set p.pages frame (record (page_of p frame) { is_dirty = true });
  }
]

-- The write of one frame, if its page is valid and dirty and the frame is one that is meant.
unfoldable pub flush_frame : (FrameInfo → Bool) → ℕ → Store → Store
flush_frame meant frame s =
    let page = page_of s.pool frame in
    let fi = info_of s.pool frame in
    if page.is_valid && page.is_dirty && meant fi
    then record {
      pool = record s.pool { pages = set s.pool.pages frame (record page { is_dirty = false }) };
      disk = (write_page s.disk fi.file_path page).1;
    }
    else s

-- The loop over the last frames, which are `left` many.
unfoldable pub flush_frames : (FrameInfo → Bool) → ℕ → Store → Store
flush_frames meant zero s = s
flush_frames meant (suc left) s =
    flush_frames meant left (flush_frame meant (s.pool.capacity - suc left) s)

unfoldable pub flush_all : Store → Store
flush_all s = flush_frames (λ fi. true) s.pool.capacity s

unfoldable pub flush_table : ℕ → Store → Store
flush_table table_hash s = flush_frames (λ fi. fi.table_hash == table_hash) s.pool.capacity s
