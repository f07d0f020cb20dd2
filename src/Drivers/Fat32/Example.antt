-- ===== src/Drivers/Fat32/Example.antt =====
-- A small volume on a disk in memory: one sector for each cluster, two tables of one sector each, and
-- a file in the clusters 3 and 4.
use plum_os.Prelude.{
  ℕ, ◌≡◌, refl, true, ◌&&◌, ◌||◌, [], arith, ltb, leb, ◌==◌, if◌then◌else◌, replicate,
}
use plum_os.Drivers.Disk.Ram.{Sectors}
use plum_os.Drivers.Fat32.{FatInfo, FileEntry, FileSystem, validate_fat32, mount}
use plum_os.Drivers.Fat32.Mount.{Fields, mount-IsVolume}
use plum_os.Drivers.Fat32.Table.Entries.{IsVolume}
use plum_os.Drivers.Fat32.File.{File}

abbrev pub small_part : FatInfo
small_part = record {
  gpt_partition = record {
    type_guid = [];
    unique_guid = [];
    starting_lba = 0;
    ending_lba = 100;
    attributes = 0;
    name = [];
  };
  data_start = 3;
  bpb = record {
    jmp_instruction = [];
    oem_name = [];
    bytes_per_sector = 512;
    sectors_per_cluster = 1;
    rsvd_sector_count = 1;
    num_of_fats = 2;
    root_entry_count = 0;
    total_sectors = 64;
    media_type = 248;
    fat_size = 0;
    sectors_per_track = 0;
    heads_count = 0;
    hidden_sectors_count = 0;
    large_sector_count = 0;
    ebpb = record {
      sectors_per_fat = 1;
      flags = 0;
      fat_version = 0;
      root_directory_cluster = 2;
      fsinfo_sector_number = 1;
      backup_sector = 6;
      rsvd = [];
      drive_number = 128;
      flags_windows_nt = 0;
      signature = 41;
      volume_id = 1;
      volume_label_string = [];
      identifier_string = [];
      boot_code = [];
      boot_partition_signature = 43605;
    };
  };
}

pub small_part-Fields : Fields small_part
small_part-Fields = record {
  spc_u8 = omega arith;
  rsvd_u16 = omega arith;
  total_u16 = omega arith;
  tables = omega arith;
  entries = omega arith;
  start = omega arith;
  start_u32 = omega arith;
}

pub small_part_valid : validate_fat32 small_part.bpb ≡ true
unfolding validate_fat32
small_part_valid = refl

abbrev pub volume : FileSystem
volume = mount small_part

pub volume-IsVolume : IsVolume volume 512
volume-IsVolume = mount-IsVolume small_part 512 small_part-Fields small_part_valid refl

-- A sector of the table: cluster 2 ends its chain, and 3 and 4 make one.
abbrev table_byte : ℕ → ℕ
table_byte o =
    if o == 12
    then 4
    else if (leb 8 o && ltb o 11) || (leb 16 o && ltb o 19)
    then 255
    else if o == 11 || o == 19
    then 15
    else 0

-- The entry of a file in cluster 3, in the directory behind the tables, and its bytes.
abbrev directory_byte : ℕ → ℕ
directory_byte o =
    if ltb o 11
    then 65
    else if o == 11
    then 32
    else if o == 26
    then 3
    else if o == 28
    then 88
    else if o == 29
    then 2
    else 0

abbrev pub image : Sectors
image = λ l o. if l == 1 || l == 2 then table_byte o else if l == 3 then directory_byte o else l

abbrev pub small_entry : FileEntry
small_entry = record {
  file_name = replicate 11 65;
  attributes = 32;
  rsvd_windows_nt = 0;
  create_time_tenth = 0;
  creation_time = 0;
  creation_date = 0;
  last_accessed_date = 0;
  first_cluster_high = 0;
  last_modification_time = 0;
  last_modification_date = 0;
  first_cluster_low = 3;
  file_size = 600;
}

abbrev pub small_file : File
small_file = record {
  file = small_entry;
  first_cluster = 3;
  start_lba = 4;
  position = 500;
  cluster_size = 512;
  directory_entry_offset = 0;
  directory_entry_lba = 3;
}
