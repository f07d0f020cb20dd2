-- ===== src/Drivers/Fat32/File.antt =====
-- src/Drivers/fs/FAT32/FAT32File.cpp: an open file. A result of type int64_t or int is `none` for -1;
-- the outer `Option` of a transfer is `none` where its fuel runs out. `filesystem`, its device and
-- `buffer` are not null. Buffers do not overlap.
pub mod Chain
pub mod Round
pub mod Loop
pub mod Read
pub mod Complete
pub mod Seek
pub mod Entry
pub mod Change
pub mod Empty
pub mod Ends
mod Tests
use plum_os.Prelude.{
  ℕ, zero, suc, ◌+◌, ◌-◌, ◌*◌, ◌/◌, ◌%◌, ◌^◌, Bool, ◌&&◌, ◌||◌, Option, none, some, List, [], ◌∷◌,
  ◌++◌, ltb, leb, ◌==◌, if◌then◌else◌, add64,
}
use plum_os.Prelude.Int.{ℤ, pos, negsuc, ◌+ℤ◌, ◌-ℤ◌, ltb_ℤ}
use plum_os.Std.Memory.{Bytes}
use plum_os.Drivers.LittleEndian.{le16, le32, bytes16, bytes32, bytes_at, buffer_of}
use plum_os.Drivers.Disk.{splice}
use plum_os.Drivers.Disk.Device.{Device}
use plum_os.Drivers.Fat32.{FileEntry, FileSystem, calculate_lba}
use plum_os.Drivers.Fat32.Table.{get_next_cluster}

pub record File : Type 0 where
  pub file : FileEntry
  pub first_cluster : ℕ
  pub start_lba : ℕ
  pub position : ℕ
  pub cluster_size : ℕ
  pub directory_entry_offset : ℕ
  pub directory_entry_lba : ℕ

pub record FileStat : Type 0 where
  pub size : ℕ
  pub created_time : ℕ
  pub modified_time : ℕ
  pub attributes : ℕ
  pub kind : ℕ

unfoldable pub new_file : FileSystem → FileEntry → ℕ → ℕ → File
new_file fs file offset lba =
    let first = file.first_cluster_low + file.first_cluster_high * 65536 in
    record {
      file = file;
      first_cluster = first;
      start_lba = calculate_lba fs first;
      position = 0;
      cluster_size = fs.cluster_size;
      directory_entry_offset = offset;
      directory_entry_lba = lba;
    }

-- The packed structure in memory.
abbrev pub entry_bytes : FileEntry → List ℕ
entry_bytes e =
    e.file_name
    ++ ((e.attributes ∷ e.rsvd_windows_nt ∷ e.create_time_tenth ∷ [])
        ++ (bytes16 e.creation_time
            ++ (bytes16 e.creation_date
                ++ (bytes16 e.last_accessed_date
                    ++ (bytes16 e.first_cluster_high
                        ++ (bytes16 e.last_modification_time
                            ++ (bytes16 e.last_modification_date
                                ++ (bytes16 e.first_cluster_low ++ bytes32 e.file_size))))))))

-- What `entry[i]` is, at index `o` of a buffer.
unfoldable pub entry_at : Bytes → ℕ → FileEntry
entry_at b o = record {
  file_name = bytes_at 11 b o;
  attributes = b (o + 11);
  rsvd_windows_nt = b (o + 12);
  create_time_tenth = b (o + 13);
  creation_time = le16 b (o + 14);
  creation_date = le16 b (o + 16);
  last_accessed_date = le16 b (o + 18);
  first_cluster_high = le16 b (o + 20);
  last_modification_time = le16 b (o + 22);
  last_modification_date = le16 b (o + 24);
  first_cluster_low = le16 b (o + 26);
  file_size = le32 b (o + 28);
}

unfoldable pub size : File → ℕ
size f = f.file.file_size

unfoldable pub stat : File → FileStat
stat f = record {
  size = f.file.file_size;
  created_time = f.file.creation_time;
  modified_time = f.file.last_modification_time;
  attributes = f.file.attributes;
  kind = 1;
}

abbrev pub int64_max : ℤ
int64_max = pos 9223372036854775807

abbrev pub int64_min : ℤ
int64_min = negsuc 9223372036854775807

-- The switch on `static_cast<SeekMode>(whence)`.
unfoldable pub seek_base : File → ℕ → Option ℤ
seek_base f whence =
    if whence % 256 == 0
    then some (pos 0)
    else if whence % 256 == 1
    then (if ltb 9223372036854775807 f.position then none else some (pos f.position))
    else if whence % 256 == 2
    then (if ltb 9223372036854775807 f.file.file_size then none else some (pos f.file.file_size))
    else none

unfoldable pub seek_to : File → ℤ → Option ℕ × File
seek_to f (negsuc n) = (none, f)
seek_to f (pos n) =
    if ltb f.file.file_size n then (none, f) else (some n, record f { position = n })

unfoldable pub seek_from : File → ℤ → Option ℤ → Option ℕ × File
unfolding seek_to
seek_from f offset none = (none, f)
seek_from f offset (some base) =
    if ltb_ℤ (pos 0) offset && ltb_ℤ (int64_max -ℤ offset) base
    then (none, f)
    else if ltb_ℤ offset (pos 0) && ltb_ℤ base (int64_min -ℤ offset)
    then (none, f)
    else seek_to f (base +ℤ offset)

unfoldable pub seek : File → ℤ → ℕ → Option ℕ × File
unfolding seek_base seek_from
seek f offset whence = seek_from f offset (seek_base f whence)

-- How a transfer ended: what it returns, by how much the position goes on, the buffer of a read.
pub record Transfer (S : Type 0) : Type 0 where
  pub returned : Option ℕ
  pub moved : ℕ
  pub buffer : Bytes
  pub state : S

-- `copied > 0 ? copied : -1`
abbrev pub partial : ℕ → Option ℕ
partial n = if ltb 0 n then some n else none

module _ {S : Type 0} (dev : Device S) (fs : FileSystem) where
  unfoldable pub update_file_entry : File → S → Bool × S
  update_file_entry f s =
      dev.write_at f.directory_entry_lba (f.directory_entry_offset % 2 ^ 32) 32
        (buffer_of (entry_bytes f.file)) s

  -- The loop to the cluster of the position, with `n` rounds left.
  unfoldable pub walk : ℕ → ℕ → S → Option ℕ × S
  walk zero cluster s = (some cluster, s)
  walk (suc n) cluster s =
      let (got, s') = get_next_cluster dev fs cluster s in
      elim got [
        | none ↦ (none, s')
        | some next ↦ let rest = walk n next s' in if next == 0 then (none, s') else rest
      ]

  -- The loop of `read`, while `copied` is below `bytes_to_read`.
  unfoldable pub read_loop : ℕ → ℕ → ℕ → ℕ → ℕ → ℕ → Bytes → S → Option (Transfer S)
  read_loop zero cluster_size bytes_to_read copied offset_in_cluster cluster buffer s = none
  read_loop (suc fuel) cluster_size bytes_to_read copied offset_in_cluster cluster buffer s =
      let available = cluster_size - offset_in_cluster in
      let left = bytes_to_read - copied in
      let chunk = if ltb left available then left else available in
      let (got, s') = dev.read_at (calculate_lba fs cluster) 0 (cluster_size % 2 ^ 32) s in
      elim got [
        | none ↦
            some (record { returned = partial copied; moved = copied; buffer = buffer; state = s' })
        | some temp ↦
            let buffer' = splice buffer copied temp offset_in_cluster chunk in
            let copied' = copied + chunk in
            let (link, s'') = get_next_cluster dev fs cluster s' in
            if ltb copied' bytes_to_read
            then elim link [
              | none ↦ some (record {
                returned = partial copied';
                moved = copied';
                buffer = buffer';
                state = s'';
              })
              | some next ↦
                  let rest = read_loop fuel cluster_size bytes_to_read copied' 0 next buffer' s'' in
                  if next == 0
                  then some (record { returned = none; moved = 0; buffer = buffer'; state = s'' })
                  else rest
            ]
            else some
                (record { returned = some copied'; moved = copied'; buffer = buffer'; state = s' })
      ]

  abbrev pub failed : Bytes → S → Transfer S
  failed buffer s = record { returned = none; moved = 0; buffer = buffer; state = s }

  unfoldable pub read_walked : Bool → File → ℕ → Bytes → Option ℕ × S → Option (Transfer S)
  read_walked room f bytes_to_read buffer (none, s) = some (failed buffer s)
  read_walked room f bytes_to_read buffer (some cluster, s) =
      if room
      then read_loop (bytes_to_read + 1) f.cluster_size bytes_to_read 0
          (f.position % f.cluster_size) cluster buffer s
      else some (failed buffer s)

  -- `room` says whether `malloc` finds memory for a cluster.
  unfoldable pub read_transfer : Bool → File → Bytes → ℕ → S → Option (Transfer S)
  unfolding read_walked
  read_transfer room f buffer size s =
      if f.cluster_size == 0 || ltb f.start_lba 2
      then some (failed buffer s)
      else if size == 0 || leb f.file.file_size f.position
      then some (record { returned = some 0; moved = 0; buffer = buffer; state = s })
      else let remaining_file = f.file.file_size - f.position in
        let bytes_to_read = if ltb size remaining_file then size else remaining_file in
        read_walked room f bytes_to_read buffer
          (walk (f.position / f.cluster_size) f.first_cluster s)

  -- `position` goes on at the end.
  unfoldable pub finish : File → Option (Transfer S) → Option (Option ℕ × File × Bytes × S)
  finish f none = none
  finish f (some t) =
      some (t.returned, record f { position = add64 f.position t.moved }, t.buffer, t.state)

  -- What it returns, the file, the buffer and the disk.
  unfoldable pub read : Bool → File → Bytes → ℕ → S → Option (Option ℕ × File × Bytes × S)
  unfolding finish
  read room f buffer size s = finish f (read_transfer room f buffer size s)
