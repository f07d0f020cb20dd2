-- ===== src/Kernel/Syscall.antt =====
-- src/arch/x86_64/syscall/ksyscall.cpp and the descriptor tables of
-- src/kernel/Process/Process_manager.cpp: the system calls on files. The calls act on the table of
-- the thread that `get_thread` returns; a call with no current thread is undefined behaviour in C++.
-- An `OpenFile*` is its address. A result of type u64 is a number; -1 is 2^64 - 1.
pub mod Table
pub mod Open
pub mod Close
pub mod Linked
pub mod Keep
mod Tests
use plum_os.Prelude.{
  ℕ, ◌+◌, ◌-◌, Bool, true, false, Option, none, some, List, [], ◌∷◌, ltb, leb, ◌==◌, if◌then◌else◌,
  get_or, set,
}
use plum_os.Kernel.Vfs.{Mount, open_path}
use plum_os.Kernel.Process.{FdEntry, empty_entry, max_fds}

abbrev pub minus_one : ℕ
minus_one = 18446744073709551615

-- `ref_count` is an int32_t that is 1 from the start and never negative here.
pub record OpenFile (Obj : Type 0) : Type 0 where
  pub object : Option Obj
  pub position : ℕ
  pub flags : ℕ
  pub ref_count : ℕ

-- The virtual methods of `FileSystem` and `FileObject`, with whatever state the drivers behind them
-- and the callers' buffers have, `W`; buffers and `FileStat*` are addresses.
pub record Objects (FS Obj W : Type 0) : Type 0 where
  pub open_file : FS → List ℕ → ℕ → W → Option Obj × W
  pub read : Obj → ℕ → ℕ → W → ℕ × W
  pub write : Obj → ℕ → ℕ → W → ℕ × W
  pub seek : Obj → ℕ → ℕ → W → ℕ × W
  pub stat : Obj → ℕ → W → ℕ × W
  pub truncate : Obj → ℕ → W → ℕ × W
  pub close : Obj → W → W

-- The open files by their addresses, the table of the current thread, and the rest.
pub record Files (Obj W : Type 0) : Type 0 where
  pub open_files : ℕ → Option (OpenFile Obj)
  pub fd_table : List FdEntry
  pub world : W

-- The loop of `alloc_fd`, from descriptor `fd` on, over the entries from there.
unfoldable pub alloc_from : ℕ → List FdEntry → ℕ → Option ℕ × List FdEntry
alloc_from fd [] file = (none, [])
alloc_from fd (e ∷ es) file =
    let rest = alloc_from (fd + 1) es file in
    elim e.file [
      | none ↦ (some fd, record e { file = some file } ∷ es)
      | some f ↦ (rest.0, e ∷ rest.1)
    ]

-- The descriptor, or `none` for -1, and the table.
unfoldable pub alloc_fd : List FdEntry → Option ℕ → Option ℕ × List FdEntry
alloc_fd table none = (none, table)
alloc_fd table (some file) = alloc_from 0 table file

-- Whether it returns 1, and the table.
unfoldable pub release_fd : List FdEntry → ℕ → Bool × List FdEntry
release_fd table fd =
    if ltb fd max_fds
    then (true, set table fd (record { file = none; flags = 0 }))
    else (false, table)

abbrev pub put :
    {Obj : Type 0}
    → (ℕ → Option (OpenFile Obj))
    → ℕ
    → Option (OpenFile Obj)
    → ℕ
    → Option (OpenFile Obj)
put files a f = λ x. if x == a then f else files x

module _ {Obj W : Type 0} where
  -- `new` returns the address, or `none` for nullptr.
  unfoldable pub create_open_file : Option ℕ → Option Obj → ℕ → Files Obj W → Option ℕ × Files Obj W
  create_open_file address none flags s = (none, s)
  create_open_file none (some object) flags s = (none, s)
  create_open_file (some a) (some object) flags s = (
    some a,
    record s {
      open_files =
          put s.open_files a
            (some (record { object = some object; position = 0; flags = flags; ref_count = 1 }));
    },
  )

  -- The checks that the calls on a descriptor begin with: the open file and its object.
  unfoldable pub file_of : ℕ → Files Obj W → Option (ℕ × Obj)
  file_of fd s = if leb max_fds fd then none else elim (get_or s.fd_table fd empty_entry).file [
    | none ↦ none
    | some a ↦ elim (s.open_files a) [
      | none ↦ none
      | some f ↦ elim f.object [ none ↦ none | some o ↦ some (a, o) ]
    ]
  ]

module _ {FS Obj W : Type 0} (ops : Objects FS Obj W) where
  unfoldable pub close_object : Option Obj → W → W
  close_object none w = w
  close_object (some o) w = ops.close o w

  -- A deleted file is not there; to release one again is undefined behaviour and does nothing here.
  unfoldable pub release_open_file : Option ℕ → Files Obj W → Files Obj W
  release_open_file none s = s
  release_open_file (some a) s = elim (s.open_files a) [
    | none ↦ s
    | some f ↦
        if ltb 0 (f.ref_count - 1)
        then record s {
          open_files = put s.open_files a (some (record f { ref_count = f.ref_count - 1 }));
        }
        else record s {
          open_files = put s.open_files a none;
          world = close_object f.object s.world;
        }
  ]

  -- A call on the object of a descriptor.
  unfoldable pub on_file : ℕ → (Obj → W → ℕ × W) → Files Obj W → ℕ × Files Obj W
  on_file fd call s = elim (file_of fd s) [
    | none ↦ (minus_one, s)
    | some r ↦ let (v, w) = call r.1 s.world in (v, record s { world = w })
  ]

  unfoldable pub kwrite : ℕ → ℕ → ℕ → Files Obj W → ℕ × Files Obj W
  kwrite fd buf size = on_file fd (λ o. ops.write o buf size)

  unfoldable pub kread : ℕ → ℕ → ℕ → Files Obj W → ℕ × Files Obj W
  kread fd buf size = on_file fd (λ o. ops.read o buf size)

  unfoldable pub kfstat : ℕ → ℕ → Files Obj W → ℕ × Files Obj W
  kfstat fd statbuf = on_file fd (λ o. ops.stat o statbuf)

  unfoldable pub klseek : ℕ → ℕ → ℕ → Files Obj W → ℕ × Files Obj W
  klseek fd offset whence = on_file fd (λ o. ops.seek o offset whence)

  unfoldable pub kftruncate : ℕ → ℕ → Files Obj W → ℕ × Files Obj W
  kftruncate fd size = on_file fd (λ o. ops.truncate o size)

  unfoldable pub kclose : ℕ → Files Obj W → ℕ × Files Obj W
  kclose fd s = elim (file_of fd s) [
    | none ↦ (minus_one, s)
    | some r ↦
        (0, release_open_file (some r.0) (record s { fd_table = (release_fd s.fd_table fd).1 }))
  ]

  -- `vfs.open(path, flags)`: the file system that the path leads to opens the rest of it.
  unfoldable pub vfs_open : List (Mount FS) → Option (List ℕ) → ℕ → W → Option Obj × W
  vfs_open mounts path flags w = elim (open_path mounts path) [
    | none ↦ (none, w)
    | some r ↦ ops.open_file r.0 r.1 flags w
  ]

  -- The end of `kopen`, with what `alloc_fd` returned.
  unfoldable pub install : ℕ → Option ℕ → Files Obj W → ℕ × Files Obj W
  install a none s = (minus_one, release_open_file (some a) s)
  install a (some fd) s = (fd, s)

  -- The middle of it, with what `create_open_file` returned for `object`.
  unfoldable pub describe : Obj → Option ℕ → Files Obj W → ℕ × Files Obj W
  describe object none s = (minus_one, record s { world = ops.close object s.world })
  describe object (some a) s =
      let (fd, table) = alloc_fd s.fd_table (some a) in install a fd (record s { fd_table = table })

  unfoldable pub kopen_object : Option ℕ → ℕ → Option Obj → Files Obj W → ℕ × Files Obj W
  kopen_object address flags none s = (minus_one, s)
  kopen_object address flags (some object) s =
      let (file, s') = create_open_file address (some object) flags s in describe object file s'

  unfoldable pub kopen :
      Option ℕ → List (Mount FS) → Option (List ℕ) → ℕ → Files Obj W → ℕ × Files Obj W
  kopen address mounts path flags s =
      let (object, w) = vfs_open mounts path flags s.world in
      kopen_object address flags object (record s { world = w })

  -- A call on the object of a path, which is opened for it and closed afterwards.
  unfoldable pub on_object : Option Obj → (Obj → W → ℕ × W) → W → ℕ × W
  on_object none call w = (minus_one, w)
  on_object (some o) call w = let (v, w') = call o w in (v, ops.close o w')

  pub kstat : List (Mount FS) → Option (List ℕ) → ℕ → W → ℕ × W
  kstat mounts path statbuf w =
      let (object, w') = vfs_open mounts path 0 w in on_object object (λ o. ops.stat o statbuf) w'

  pub klstat : List (Mount FS) → Option (List ℕ) → ℕ → W → ℕ × W
  klstat mounts path statbuf w =
      let (object, w') = vfs_open mounts path 0 w in on_object object (λ o. ops.stat o statbuf) w'

  pub ktruncate : List (Mount FS) → Option (List ℕ) → ℕ → W → ℕ × W
  ktruncate mounts path size w =
      let (object, w') = vfs_open mounts path 0 w in on_object object (λ o. ops.truncate o size) w'
