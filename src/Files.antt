-- ===== src/Files.antt =====
-- The calls of `std::fs` that src/sstable.rs and src/engine.rs make. A path is its bytes, in ASCII as
-- the names of the database are; the directory is an association list, and calls on it succeed.
pub mod Names
use lsm_storage_engine.Common.{
  ℕ, zero, suc, ◌+◌, ◌-◌, ◌/◌, ◌%◌, Bool, true, false, Option, none, some, List, [], ◌∷◌, ◌++◌, ltb,
  if◌then◌else◌, length, drop, replicate,
}
use lsm_storage_engine.Common.Bytes.{Bytes, eq_bytes}

abbrev pub FilePath : Type 0
FilePath = Bytes

abbrev pub Files : Type 0
Files = List (FilePath × Bytes)

unfoldable pub read_file : FilePath → Files → Option Bytes
read_file path [] = none
read_file path ((name, contents) ∷ files) =
    if eq_bytes path name then some contents else read_file path files

unfoldable pub remove_file : FilePath → Files → Files
remove_file path [] = []
remove_file path ((name, contents) ∷ files) =
    let rest = remove_file path files in
    if eq_bytes path name then rest else (name, contents) ∷ rest

-- A file that is created, or replaced.
unfoldable pub write_file : FilePath → Bytes → Files → Files
unfolding remove_file
write_file path contents files = (path, contents) ∷ remove_file path files

-- `fs::rename` of a file whose contents are given.
unfoldable pub rename_file : FilePath → FilePath → Bytes → Files → Files
unfolding remove_file write_file
rename_file from to contents files = write_file to contents (remove_file from files)

-- `path.exists()`
unfoldable pub exists : FilePath → Files → Bool
unfolding read_file
exists path files = elim (read_file path files) [ none ↦ false | some _ ↦ true ]

-- The extension `.tmp`, and the name with it.
abbrev pub tmp_extension : Bytes
tmp_extension = 46 ∷ 116 ∷ 109 ∷ 112 ∷ []

unfoldable pub tmp_path : FilePath → FilePath
tmp_path path = path ++ tmp_extension

-- `n.ends_with(".tmp")`; no separator stands in the extension, so the whole path can be tested.
unfoldable pub is_tmp : FilePath → Bool
is_tmp path =
    if ltb (length path) 4 then false else eq_bytes (drop (length path - 4) path) tmp_extension

-- The decimal digits of a `u64`, which has twenty at most.
unfoldable pub digits : ℕ → ℕ → Bytes
digits zero n = []
digits (suc fuel) n =
    let front = digits fuel (n / 10) in
    if ltb n 10 then (48 + n) ∷ [] else front ++ (48 + n % 10) ∷ []

-- `format!("{id:06}.sst")`
unfoldable pub table_file_name : ℕ → FilePath
unfolding digits
table_file_name id =
    let shown = digits 20 id in
    replicate (6 - length shown) 48 ++ (shown ++ 46 ∷ 115 ∷ 115 ∷ 116 ∷ [])

-- `path.join(name)`
unfoldable pub join : FilePath → FilePath → FilePath
join path name = path ++ 47 ∷ name
