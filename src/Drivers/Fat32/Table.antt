-- ===== src/Drivers/Fat32/Table.antt =====
-- src/Drivers/fs/FAT32/FAT32FileSystem.cpp: the allocation table, over the device that
-- `Drivers.Disk.Device` describes. `*next` and `*cluster` are part of the results; `none` is false.
pub mod Entries
pub mod Get
pub mod Changed
pub mod Scan
pub mod Find
mod Tests
pub mod Set
use plum_os.Prelude.{
  ℕ, zero, suc, ◌+◌, ◌-◌, ◌*◌, ◌/◌, ◌%◌, ◌^◌, Bool, true, false, not, ◌||◌, Option, none, some, ltb,
  leb, ◌==◌, if◌then◌else◌, word, add64,
}
use plum_os.Std.Memory.{Bytes}
use plum_os.Drivers.LittleEndian.{le32, bytes32, buffer_of}
use plum_os.Drivers.Disk.Device.{Device}
use plum_os.Drivers.Fat32.{FileSystem}

-- `flags & 0x80`
abbrev pub mirroring_disabled : FileSystem → Bool
mirroring_disabled fs = fs.fat.bpb.ebpb.flags / 128 % 2 == 1

-- With `flags & 0x0F`.
abbrev pub active_fat : FileSystem → ℕ
active_fat fs = if mirroring_disabled fs then fs.fat.bpb.ebpb.flags % 16 else 0

-- `fat_start_lba` of a table, after `skip` sectors of tables.
unfoldable pub fat_start_lba : FileSystem → ℕ → ℕ
fat_start_lba fs skip =
    add64 (add64 fs.fat.gpt_partition.starting_lba fs.fat.bpb.rsvd_sector_count) skip

abbrev pub fat_sector : FileSystem → ℕ → ℕ → ℕ
fat_sector fs skip cluster =
    add64 (fat_start_lba fs skip) (cluster * 4 % word / fs.fat.bpb.bytes_per_sector)

abbrev pub entry_offset : FileSystem → ℕ → ℕ
entry_offset fs cluster = cluster * 4 % word % fs.fat.bpb.bytes_per_sector

-- What an entry says: the cluster that follows, 0 at the end of a chain, or `none` for false.
unfoldable pub link_of : ℕ → ℕ → Option ℕ
link_of max_cluster value =
    let v = value % 268435456 in
    if leb 268435448 v
    then some 0
    else if ltb v 2 || leb 268435440 v || ltb max_cluster v
    then none
    else some v

-- The inner loop of `find_free_cluster` over a sector that was read, at `i` with `n` rounds left:
-- `none` where it runs through, `some none` where it leaves with false.
unfoldable pub scan_sector : ℕ → ℕ → ℕ → ℕ → Bytes → Option (Option ℕ)
scan_sector zero i first max_cluster sector = none
scan_sector (suc n) i first max_cluster sector =
    let rest = scan_sector n (suc i) first max_cluster sector in
    let cluster_index = (first + i) % 2 ^ 32 in
    if ltb cluster_index 2
    then rest
    else if leb max_cluster cluster_index
    then some none
    else if le32 sector (i * 4) % 268435456 == 0
    then some (some cluster_index)
    else rest

-- `value & 0x0FFFFFFF` with the upper four bits of `old`.
abbrev pub merge_entry : ℕ → ℕ → ℕ
merge_entry value old = value % 268435456 + old / 268435456 * 268435456

module _ {S : Type 0} (dev : Device S) (fs : FileSystem) where
  unfoldable pub next_from : Option Bytes × S → Option ℕ × S
  next_from (none, s) = (none, s)
  next_from (some b, s) = (link_of fs.max_cluster (le32 b 0), s)

  unfoldable pub get_next_cluster : ℕ → S → Option ℕ × S
  get_next_cluster cluster s =
      if fs.fat.bpb.bytes_per_sector == 0 || ltb cluster 2 || ltb fs.max_cluster cluster
      then (none, s)
      else if leb fs.fat.bpb.num_of_fats (active_fat fs)
      then (none, s)
      else next_from (
          dev.read_at (fat_sector fs (active_fat fs * fs.fat.bpb.ebpb.sectors_per_fat) cluster)
            (entry_offset fs cluster) 4 s)

  -- The outer loop of `find_free_cluster`, at a sector with `n` rounds left.
  unfoldable pub find_from : ℕ → ℕ → ℕ → S → Option ℕ × S
  find_from zero start sector_index s = (none, s)
  find_from (suc n) start sector_index s =
      let per_sector = fs.fat.bpb.bytes_per_sector / 4 in
      let (got, s') = dev.read_one (add64 start sector_index) s in
      elim got [
        | none ↦ (none, s')
        | some sector ↦
            elim (scan_sector per_sector 0 (sector_index * per_sector) fs.max_cluster sector) [
              | none ↦ find_from n start (suc sector_index) s'
              | some r ↦ (r, s')
            ]
      ]

  -- `room` says whether `malloc` finds memory for a sector.
  unfoldable pub find_free_cluster : Bool → S → Option ℕ × S
  find_free_cluster room s =
      if fs.fat.bpb.bytes_per_sector == 0
      then (none, s)
      else if leb fs.fat.bpb.num_of_fats (active_fat fs)
      then (none, s)
      else if not room
      then (none, s)
      else find_from fs.fat.bpb.ebpb.sectors_per_fat
          (fat_start_lba fs (active_fat fs * fs.fat.bpb.ebpb.sectors_per_fat)) 0 s

  abbrev pub write_entry : ℕ → ℕ → ℕ → S → Bool × S
  write_entry skip cluster value s =
      dev.write_at (fat_sector fs skip cluster) (entry_offset fs cluster) 4
        (buffer_of (bytes32 value)) s

  -- The loop over the backups, with `n` rounds left.
  unfoldable pub write_backups : ℕ → ℕ → ℕ → ℕ → Bool → S → Bool × S
  write_backups zero fat_index cluster value succes s = (succes, s)
  write_backups (suc n) fat_index cluster value succes s =
      let (done, s') =
        write_entry (fat_index * fs.fat.bpb.ebpb.sectors_per_fat % 2 ^ 32) cluster value s in
      write_backups n (suc fat_index) cluster value (if done then succes else false) s'

  unfoldable pub backups_after : ℕ → ℕ → Bool × S → Bool × S
  backups_after cluster value (false, s) = (false, s)
  backups_after cluster value (true, s) =
      if mirroring_disabled fs
      then (true, s)
      else write_backups (fs.fat.bpb.num_of_fats - 1) 1 cluster value true s

  unfoldable pub set_from : ℕ → ℕ → Option Bytes × S → Bool × S
  unfolding backups_after
  set_from cluster value (none, s) = (false, s)
  set_from cluster value (some b, s) =
      let merged = merge_entry value (le32 b 0) in
      backups_after cluster merged
        (write_entry (active_fat fs * fs.fat.bpb.ebpb.sectors_per_fat) cluster merged s)

  unfoldable pub set_next_cluster : ℕ → ℕ → S → Bool × S
  set_next_cluster cluster value s =
      if fs.fat.bpb.bytes_per_sector == 0
        || fs.fat.bpb.num_of_fats == 0
        || fs.fat.bpb.ebpb.sectors_per_fat == 0
        || ltb cluster 2
        || ltb fs.max_cluster cluster
      then (false, s)
      else if leb fs.fat.bpb.num_of_fats (active_fat fs)
      then (false, s)
      else set_from cluster value (
          dev.read_at (fat_sector fs (active_fat fs * fs.fat.bpb.ebpb.sectors_per_fat) cluster)
            (entry_offset fs cluster) 4 s)
