-- ===== src/Drivers/Fat32.antt =====
-- src/Drivers/fs/FAT32: the structures of Data_structures.hpp and the volume of FAT32FileSystem.cpp
-- with the places of its clusters. A pointer to the device that is null is left out: `mount` sets it.
pub mod Table
pub mod File
pub mod Mount
pub mod Place
pub mod Example
mod Tests
pub mod Directory
use plum_os.Prelude.{
  ℕ, ◌+◌, ◌-◌, ◌*◌, ◌/◌, ◌%◌, ◌^◌, Bool, true, false, not, ◌&&◌, ◌||◌, List, leb, ◌==◌,
  if◌then◌else◌, add64,
}

pub record EBpb : Type 0 where
  pub sectors_per_fat : ℕ
  pub flags : ℕ
  pub fat_version : ℕ
  pub root_directory_cluster : ℕ
  pub fsinfo_sector_number : ℕ
  pub backup_sector : ℕ
  pub rsvd : List ℕ
  pub drive_number : ℕ
  pub flags_windows_nt : ℕ
  pub signature : ℕ
  pub volume_id : ℕ
  pub volume_label_string : List ℕ
  pub identifier_string : List ℕ
  pub boot_code : List ℕ
  pub boot_partition_signature : ℕ

pub record Bpb : Type 0 where
  pub jmp_instruction : List ℕ
  pub oem_name : List ℕ
  pub bytes_per_sector : ℕ
  pub sectors_per_cluster : ℕ
  pub rsvd_sector_count : ℕ
  pub num_of_fats : ℕ
  pub root_entry_count : ℕ
  pub total_sectors : ℕ
  pub media_type : ℕ
  pub fat_size : ℕ
  pub sectors_per_track : ℕ
  pub heads_count : ℕ
  pub hidden_sectors_count : ℕ
  pub large_sector_count : ℕ
  pub ebpb : EBpb

pub record GptPartition : Type 0 where
  pub type_guid : List ℕ
  pub unique_guid : List ℕ
  pub starting_lba : ℕ
  pub ending_lba : ℕ
  pub attributes : ℕ
  pub name : List ℕ

pub record FatInfo : Type 0 where
  pub gpt_partition : GptPartition
  pub data_start : ℕ
  pub bpb : Bpb

pub record FileEntry : Type 0 where
  pub file_name : List ℕ
  pub attributes : ℕ
  pub rsvd_windows_nt : ℕ
  pub create_time_tenth : ℕ
  pub creation_time : ℕ
  pub creation_date : ℕ
  pub last_accessed_date : ℕ
  pub first_cluster_high : ℕ
  pub last_modification_time : ℕ
  pub last_modification_date : ℕ
  pub first_cluster_low : ℕ
  pub file_size : ℕ

pub record FileSystem : Type 0 where
  pub fat : FatInfo
  pub root_cluster : ℕ
  pub cluster_size : ℕ
  pub root_lba : ℕ
  pub data_sectors : ℕ
  pub max_cluster : ℕ

-- `x & (x - 1)` is not zero: `x` is not a power of two. `x` is a byte here.
abbrev pub is_power_of_two : ℕ → Bool
is_power_of_two x =
    x == 1 || x == 2 || x == 4 || x == 8 || x == 16 || x == 32 || x == 64 || x == 128

unfoldable pub validate_fat32 : Bpb → Bool
validate_fat32 bpb =
    if not (bpb.ebpb.boot_partition_signature == 43605)
    then false
    else if not (bpb.bytes_per_sector == 512)
        && not (bpb.bytes_per_sector == 1024)
        && not (bpb.bytes_per_sector == 2048)
        && not (bpb.bytes_per_sector == 4096)
    then false
    else if bpb.sectors_per_cluster == 0
    then false
    else if not (is_power_of_two bpb.sectors_per_cluster)
    then false
    else if not (bpb.root_entry_count == 0) || not (bpb.fat_size == 0)
    then false
    else if bpb.rsvd_sector_count == 0
    then false
    else true

-- The `data_start` that `fat32_manager::init` works out, a uint32_t.
unfoldable pub data_start_of : GptPartition → Bpb → ℕ
data_start_of part bpb =
    (part.starting_lba
      + bpb.rsvd_sector_count
      + bpb.num_of_fats * bpb.ebpb.sectors_per_fat % 2 ^ 32)
    % 2 ^ 32

-- The parameter is a uint32_t.
unfoldable pub lba_of : FatInfo → ℕ → ℕ
lba_of fat cluster =
    let c = cluster % 2 ^ 32 in
    if leb 2 c then add64 fat.data_start ((c - 2) * fat.bpb.sectors_per_cluster) else 0

unfoldable pub calculate_lba : FileSystem → ℕ → ℕ
unfolding lba_of
calculate_lba fs cluster = lba_of fs.fat cluster

-- `data_sectors` is the value of an expression of type uint32_t.
unfoldable pub mount : FatInfo → FileSystem
unfolding lba_of
mount part =
    let bpb = part.bpb in
    let data_sectors =
      (bpb.total_sectors
        + 2 ^ 33
        - bpb.rsvd_sector_count
        - bpb.num_of_fats * bpb.ebpb.sectors_per_fat % 2 ^ 32)
      % 2 ^ 32 in
    record {
      fat = part;
      root_cluster = bpb.ebpb.root_directory_cluster;
      cluster_size = bpb.bytes_per_sector * bpb.sectors_per_cluster;
      root_lba = lba_of part bpb.ebpb.root_directory_cluster;
      data_sectors = data_sectors;
      max_cluster = data_sectors / bpb.sectors_per_cluster + 1;
    }
