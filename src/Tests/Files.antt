-- ===== src/Tests/Files.antt =====
-- Files of pages, the catalog and the index.
use apgitproj.Base.{ℕ, ◌≡◌, refl, true, pos, length-replicate, replicate, take, Text, codes, some}
use apgitproj.Schema.{page_size}
use apgitproj.Page.{Page}
use apgitproj.Disk.{Disk, write_page, read_page, page_count}
use apgitproj.Disk.Files.{IsWritable, loaded, read_page-write_page}
use apgitproj.HashMap.{new_map}
use apgitproj.HashMap.Hashing.{text_key}
use apgitproj.Catalog.{Catalog}
use apgitproj.Index.{max_locs, build, new_index, index_search}
use apgitproj.Index.Places.{entry_of, places_of, file_keys, index_search-build}
use apgitproj.Tests.Storage.{people, to_bytes, of_bytes}

abbrev path : Text
path = codes "people.db"

-- A file of two pages of zeros.
abbrev disk : Disk
disk = λ name. some (replicate 8192 0)

abbrev ones : Page
ones = record { page_id = pos 1; is_dirty = true; is_valid = true; bytes = replicate page_size 1 }

ones-IsWritable : IsWritable ones 1
ones-IsWritable = record { number = refl; size = length-replicate {A = ℕ} page_size 1 }

read_page-write_page_example :
    read_page (write_page disk path ones).1 path 1 ones ≡ (true, loaded 1 ones.bytes)
read_page-write_page_example = read_page-write_page disk path ones ones 1 ones-IsWritable

abbrev catalog : Catalog
catalog = new_map 4

index_search-build_example :
    index_search (build to_bytes of_bytes people (pos 0) disk path new_index) (pos 7)
    ≡ entry_of (
        take max_locs (
          places_of
            (pos 7)
            (file_keys to_bytes of_bytes people (pos 0) disk path 0 (page_count disk path))))
index_search-build_example = index_search-build to_bytes of_bytes people (pos 0) disk path (pos 7)
