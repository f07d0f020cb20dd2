-- ===== src/Drivers/Fat32/Directory.antt =====
-- src/Drivers/fs/FAT32/FAT32FileSystem.cpp: `open`, the search of the root directory. The new file is
-- the result; that the file system keeps it in `files`, and the buffer for the cluster, whose `malloc`
-- is taken to succeed, are left out. A store behind `long_name` and a read behind it are undefined
-- behaviour in C++: the result is `none`.
pub mod Found
pub mod Terminated
pub mod LongName
mod Tests
use mathlib.Core.Option
use plum_os.Prelude.{
  ℕ, zero, suc, ◌+◌, ◌*◌, ◌/◌, ◌%◌, ◌^◌, Bool, false, not, ◌&&◌, ◌||◌, Option, none, some, List,
  map, ltb, leb, ◌==◌, if◌then◌else◌,
}
use plum_os.Std.Memory.{Bytes, store}
use plum_os.Drivers.LittleEndian.{le16, bytes_at}
use plum_os.Drivers.Disk.Device.{Device}
use plum_os.Drivers.Fat32.{FileEntry, FileSystem}
use plum_os.Drivers.Fat32.File.{File, entry_at, new_file}
use plum_os.Std.CString.{strncmp}
use plum_os.Kernel.Vfs.{equal_texts}

-- `char long_name[255]`
abbrev pub name_bytes : ℕ
name_bytes = 255

-- A store to `long_name[idx]`, at an index in the array.
abbrev pub put_char : Bytes → ℕ → ℕ → Option Bytes
put_char long_name idx c = if ltb idx name_bytes then some (store long_name idx c) else none

-- The loop over `n` characters of a part of a long name, from index `at` of the buffer on; `idx` is
-- a uint8_t.
unfoldable pub put_chars : ℕ → ℕ → Bytes → Bytes × ℕ → Option (Bytes × ℕ)
put_chars zero at b (long_name, idx) = some (long_name, idx)
put_chars (suc n) at b (long_name, idx) =
    let c = le16 b at in
    let skipped = put_chars n (at + 2) b (long_name, idx) in
    let ended : Option (Bytes × ℕ) = elim (put_char long_name idx 0) [
      | none ↦ none
      | some l ↦ some (l, idx)
    ] in
    let taken : Option (Bytes × ℕ) = elim (put_char long_name idx (c % 256)) [
      | none ↦ none
      | some l ↦ put_chars n (at + 2) b (l, (idx + 1) % 256)
    ] in
    if c == 65535 then skipped else if c == 0 then ended else taken

-- `((order & 0x1F) - 1) * 13` as a uint8_t.
abbrev pub name_index : ℕ → ℕ
name_index order = (order % 32 + 255) * 13 % 256

-- What a `long_file_name` at index `o` does to `long_name`.
unfoldable pub add_name : Bytes → ℕ → Bytes → Option Bytes
add_name b o long_name =
    let idx = name_index (b o) in
    let parts : Option Bytes = elim (put_chars 5 (o + 1) b (long_name, idx)) [
      | none ↦ none
      | some r₁ ↦ elim (put_chars 6 (o + 14) b r₁) [
        | none ↦ none
        | some r₂ ↦ Option.map (λ r. r.0) (put_chars 2 (o + 28) b r₂)
      ]
    ] in
    if leb name_bytes idx then put_char long_name 254 0 else parts

abbrev pub is_deleted : Bytes → ℕ → Bool
is_deleted b o = b o == 229

abbrev pub is_long_name : Bytes → ℕ → Bool
is_long_name b o = b (o + 11) == 15

abbrev pub is_dir : Bytes → ℕ → Bool
is_dir b o = b (o + 11) / 16 % 2 == 1

abbrev pub is_file : Bytes → ℕ → Bool
is_file b o = b (o + 11) / 32 % 2 == 1

-- `long_name` behind the entry at index `o`.
unfoldable pub next_name : Bytes → ℕ → Bytes → Option Bytes
unfolding add_name
next_name b o long_name =
    if is_deleted b o
    then some long_name
    else if is_long_name b o
    then add_name b o long_name
    else if is_dir b o
    then some long_name
    else if not (long_name 0 == 0)
    then put_char long_name 0 0
    else some long_name

-- Is there a terminator in the array, from index `i` on with `n` bytes left?
unfoldable pub has_end : ℕ → ℕ → Bytes → Bool
has_end zero i long_name = false
has_end (suc n) i long_name = let rest = has_end n (i + 1) long_name in long_name i == 0 || rest

-- `strcmp(long_name, path) == 0`. With no terminator in the array, `strcmp` reads behind it unless a
-- byte differs from the path before.
unfoldable pub compare_name : Bytes → List ℕ → Option Bool
compare_name long_name path =
    let name = bytes_at name_bytes long_name 0 in
    if not (has_end name_bytes 0 long_name) && strncmp name path name_bytes
    then none
    else some (equal_texts name path)

-- Whether the search ends at the entry at index `o`.
unfoldable pub is_match : Bytes → ℕ → Bytes → List ℕ → Option Bool
is_match b o long_name path =
    if not (is_deleted b o) && not (is_long_name b o) && not (is_dir b o) && is_file b o
    then compare_name long_name path
    else some false

-- The loop over the entries, at index `o` of the buffer with `n` rounds left.
unfoldable pub search : ℕ → ℕ → Bytes → Bytes → List ℕ → Option (Option (FileEntry × ℕ))
search zero o b long_name path = some none
search (suc n) o b long_name path =
    let on : Option (Option (FileEntry × ℕ)) = elim (next_name b o long_name) [
      | none ↦ none
      | some next ↦ search n (o + 32) b next path
    ] in
    let round : Option (Option (FileEntry × ℕ)) = elim (is_match b o long_name path) [
      | none ↦ none
      | some found ↦ if found then some (some (entry_at b o, o)) else on
    ] in
    if b o == 0 then some none else round

module _ {S : Type 0} (dev : Device S) (fs : FileSystem) where
  unfoldable pub opened : Option (FileEntry × ℕ) → Option File
  opened none = none
  opened (some (e, o)) = some (new_file fs e o fs.root_lba)

  unfoldable pub searched : List ℕ → Option Bytes × S → Option (Option File) × S
  unfolding opened
  searched path (none, s) = (some none, s)
  searched path (some b, s) =
      (Option.map opened (search (fs.cluster_size / 32) 0 b (λ x. 0) path), s)

  unfoldable pub open_file : List ℕ → S → Option (Option File) × S
  unfolding searched
  open_file path s = searched path (dev.read_at fs.root_lba 0 (fs.cluster_size % 2 ^ 32) s)
