-- ===== src/Disk.antt =====
-- src/storage/DiskManager.h: files of pages. A file that opens for writing is created when absent;
-- opening and writing succeed.
pub mod Files
pub mod Blocks
use apgitproj.Base.{
  ℕ, ◌+◌, ◌-◌, ◌*◌, ◌/◌, ◌≤◌, Bool, true, false, List, [], ◌++◌, ℤ, pos, pos_part, length,
  replicate, drop, leb, if◌then◌else◌, Text, str_eq, Option, none, some,
}
use apgitproj.Memory.{write_bytes, read_bytes}
use apgitproj.Schema.{page_size}
use apgitproj.Page.{Page}

-- The contents of each file that there is.
abbrev pub Disk : Type 0
Disk = Text → Option (List ℕ)

unfoldable pub set_file : Disk → Text → List ℕ → Disk
set_file d path bytes other = if str_eq path other then some bytes else d other

-- A file that is opened for writing, empty if it is new.
unfoldable pub opened : Disk → Text → List ℕ
opened d path = elim (d path) [ none ↦ [] | some bytes ↦ bytes ]

-- `fseek` past the end and `fwrite` fill the gap with zeros.
unfoldable pub extend : List ℕ → ℕ → List ℕ
extend bytes size = bytes ++ replicate (size - length bytes) 0

unfoldable pub write_page : Disk → Text → Page → Bool × Disk
write_page d path page =
    let offset = pos_part page.page_id * page_size in
    let bytes = extend (opened d path) (offset + page_size) in
    (true, set_file d path (write_bytes bytes offset page.bytes))

-- Whether all of the page was read from an open file, and the destination. Of a page that the file
-- ends in, the part that is there is read.
unfoldable pub read_file : List ℕ → ℕ → Page → Bool × Page
read_file bytes pid dest =
    let offset = pid * page_size in
    let rd = length bytes - offset in
    if leb (offset + page_size) (length bytes)
    then (
      true,
      record {
        page_id = pos pid;
        is_dirty = false;
        is_valid = true;
        bytes = read_bytes bytes offset page_size;
      },
    )
    else (false, record dest { bytes = read_bytes bytes offset rd ++ drop rd dest.bytes })

unfoldable pub read_page : Disk → Text → ℕ → Page → Bool × Page
read_page d path pid dest = elim (d path) [
  | none ↦ (false, dest)
  | some bytes ↦ read_file bytes pid dest
]

unfoldable pub page_count : Disk → Text → ℕ
page_count d path = elim (d path) [ none ↦ 0 | some bytes ↦ length bytes / page_size ]

unfoldable pub ensure_file : Disk → Text → Disk
ensure_file d path = set_file d path (opened d path)
