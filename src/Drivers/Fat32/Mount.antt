-- ===== src/Drivers/Fat32/Mount.antt =====
-- What `validate_fat32` and `mount` make sure of, and what they do not.
use native.Mathlib.Nat.{div-le_self}
use plum_os.Prelude.{ℕ, ◌+◌, ◌-◌, ◌*◌, ◌/◌, ◌%◌, ◌^◌, ◌≤◌, ◌<◌, ◌≡◌, ap, subst, true, arith}
use plum_os.Drivers.Fat32.{FatInfo, validate_fat32, mount}
use plum_os.Drivers.Fat32.Table.Entries.{IsVolume}

-- The fields of the boot sector that are used fit their types, the tables have less than 2^32
-- sectors in all and 2^32 entries each at most, and the partition begins below 2^63.
pub record Fields (part : FatInfo) : Type 0 where
  pub spc_u8 : part.bpb.sectors_per_cluster < 256
  pub rsvd_u16 : part.bpb.rsvd_sector_count < 65536
  pub total_u16 : part.bpb.total_sectors < 65536
  pub tables : part.bpb.num_of_fats * part.bpb.ebpb.sectors_per_fat < 2 ^ 32
  pub entries : part.bpb.ebpb.sectors_per_fat * (part.bpb.bytes_per_sector / 4) ≤ 2 ^ 32
  pub start : part.gpt_partition.starting_lba < 2 ^ 63
  pub start_u32 : part.data_start < 2 ^ 32

validated :
    (part : FatInfo)
    → validate_fat32 part.bpb ≡ true
    → (0 < part.bpb.sectors_per_cluster)
      × (0 < part.bpb.bytes_per_sector)
      × (part.bpb.bytes_per_sector / 4 * 4 ≡ part.bpb.bytes_per_sector)
      × (part.bpb.bytes_per_sector < 65536)
unfolding validate_fat32
validated part h = (ground arith, ground arith, ground arith, ground arith)

-- A volume that `validate_fat32` accepts, with fields in the range of `Fields`, on a disk with sectors
-- of the same size, has after `mount` what its table and its files rely on.
pub mount-IsVolume :
    (part : FatInfo) (sector_size : ℕ)
    → Fields part
    → validate_fat32 part.bpb ≡ true
    → part.bpb.bytes_per_sector ≡ sector_size
    → IsVolume (mount part) sector_size
unfolding mount
mount-IsVolume part sector_size f valid same =
    let (spc, pos, four, small) = validated part valid in
    let some_sectors = (mount part).data_sectors in
    let fewer = div-le_self some_sectors part.bpb.sectors_per_cluster in
    record {
      sector = same;
      sector_pos = subst (λ z. 0 < z) same pos;
      sector_by4 = four;
      sector_u16 = small;
      cluster = ap (λ z. z * part.bpb.sectors_per_cluster) same;
      cluster_pos = spc;
      cluster_u8 = f.spc_u8;
      start = f.start;
      rsvd_u16 = f.rsvd_u16;
      tables = f.tables;
      entries = f.entries;
      start_u32 = f.start_u32;
      last = omega arith;
    }

wraps :
    (total rsvd tables : ℕ)
    → total ≡ 0
    → 0 < rsvd
    → rsvd + tables < 2 ^ 32
    → (total + 2 ^ 33 - rsvd - tables % 2 ^ 32) % 2 ^ 32 ≡ 2 ^ 32 - rsvd - tables
wraps total rsvd tables z pos h = omega arith

-- A volume with 0 in the 16-bit `total_sectors`, as one has that is too large for 16 bits, is mounted
-- with a number of data sectors that has wrapped around: with the reserved sectors and those of the
-- tables it makes 2^32, so that `max_cluster` has nothing to do with the size of the volume, which is
-- in `large_sector_count`.
pub mount_wraps :
    (part : FatInfo)
    → part.bpb.total_sectors ≡ 0
    → 0 < part.bpb.rsvd_sector_count
    → part.bpb.rsvd_sector_count + part.bpb.num_of_fats * part.bpb.ebpb.sectors_per_fat < 2 ^ 32
    → ((mount part).data_sectors
          + part.bpb.rsvd_sector_count
          + part.bpb.num_of_fats * part.bpb.ebpb.sectors_per_fat
        ≡ 2 ^ 32)
      × ((mount part).max_cluster
          ≡ (2 ^ 32
                - part.bpb.rsvd_sector_count
                - part.bpb.num_of_fats * part.bpb.ebpb.sectors_per_fat)
              / part.bpb.sectors_per_cluster
            + 1)
unfolding mount
mount_wraps part z pos h =
    let few =
      wraps part.bpb.total_sectors part.bpb.rsvd_sector_count
        (part.bpb.num_of_fats * part.bpb.ebpb.sectors_per_fat) z pos h in
    (omega arith, ap (λ n. n / part.bpb.sectors_per_cluster + 1) few)
