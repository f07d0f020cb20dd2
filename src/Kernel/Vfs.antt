-- ===== src/Kernel/Vfs.antt =====
-- src/kernel/Process/FileDescriptor.cpp: the table of mounts, and the choice of the file system
-- that opens a path. Paths are texts (`Std.CString`); a `FileSystem*` is an element of `FS`.
pub mod Longest
pub mod Table
pub mod Open
mod Tests
use plum_os.Prelude.{
  ℕ, ◌+◌, Bool, true, false, not, ◌&&◌, Option, none, some, List, [], ◌∷◌, ◌++◌, ltb, ◌==◌,
  if◌then◌else◌, drop,
}
use plum_os.Std.CString.{char_at, strcmp, strncmp, strlen, Difference, same, less, more}

-- b'/'
abbrev pub slash : ℕ
slash = 47

pub record Mount (FS : Type 0) : Type 0 where
  pub path : List ℕ
  pub fs : FS

-- `strlen` with a value for the runs that would not end; texts have none.
unfoldable pub len_of : List ℕ → ℕ
len_of s = elim (strlen s) [ none ↦ 0 | some n ↦ n ]

abbrev pub is_same : Option Difference → Bool
is_same none = false
is_same (some same) = true
is_same (some (less d)) = false
is_same (some (more d)) = false

-- `strcmp(a, b) == 0`
unfoldable pub equal_texts : List ℕ → List ℕ → Bool
equal_texts a b = is_same (strcmp a b)

unfoldable pub mount_matches : List ℕ → List ℕ → Bool
mount_matches path at =
    let len = len_of at in
    if not (strncmp path at len)
    then false
    else if len == 1 && char_at at 0 == slash
    then char_at path 0 == slash
    else if char_at path len == 0
    then true
    else char_at path len == slash

-- `path + best_len`, past the slash that follows.
unfoldable pub relative_path : List ℕ → List ℕ → ℕ → List ℕ
relative_path path at len =
    if len == 1 && char_at at 0 == slash
    then drop 1 path
    else if char_at path len == slash
    then drop (len + 1) path
    else drop len path

module _ {FS : Type 0} where
  -- The loop of `mount` over the mounts there are.
  unfoldable pub is_mounted : List ℕ → List (Mount FS) → Bool
  is_mounted path [] = false
  is_mounted path (m ∷ ms) = if equal_texts m.path path then true else is_mounted path ms

  -- The arguments are pointers, which may be null.
  unfoldable pub mount : Option (List ℕ) → Option FS → List (Mount FS) → Bool × List (Mount FS)
  mount none fs mounts = (false, mounts)
  mount (some path) none mounts = (false, mounts)
  mount (some path) (some fs) mounts =
      if not (char_at path 0 == slash)
      then (false, mounts)
      else if is_mounted path mounts
      then (false, mounts)
      else (true, mounts ++ record { path = path; fs = fs } ∷ [])

  -- Not implemented in the kernel: it refuses every path.
  pub unmount : List ℕ → List (Mount FS) → Bool × List (Mount FS)
  unmount path mounts = (false, mounts)

  -- The loop of `open`: `best` is the mount chosen so far, beside `best_len`.
  unfoldable pub best_mount :
      List ℕ → Option (Mount FS × ℕ) → List (Mount FS) → Option (Mount FS × ℕ)
  best_mount path best [] = best
  best_mount path best (m ∷ ms) =
      let len = len_of m.path in
      best_mount path
        (if not (mount_matches path m.path) then best else elim best [
          | none ↦ some (m, len)
          | some b ↦ if ltb b.1 len then some (m, len) else some b
        ])
        ms

  -- The file system that `open` calls, and the path that it hands it; `none` is nullptr.
  unfoldable pub open_path : List (Mount FS) → Option (List ℕ) → Option (FS × List ℕ)
  open_path mounts none = none
  open_path mounts (some path) =
      if not (char_at path 0 == slash) then none else elim (best_mount path none mounts) [
        | none ↦ none
        | some b ↦ some ((b.0).fs, relative_path path (b.0).path b.1)
      ]
