-- ===== src/Drivers/Fat32/Place.antt =====
-- What `validate_fat32` looks at, and where the clusters of a volume are once `mount` is done.
use native.Mathlib.Nat.{le-div_iff_mul-le, mul-le-mul}
use plum_os.Prelude.{
  ℕ, ◌+◌, ◌-◌, ◌*◌, ◌/◌, ◌%◌, ◌^◌, ◌≤◌, ◌<◌, ◌≡◌, refl, ap, ◌∙◌, ◌↔◌, inl, inr, true, ◌||◌, arith,
  leb, ◌==◌, if◌then◌else◌, Bool-cases, add64,
}
use plum_os.Drivers.Fat32.{
  Bpb, FatInfo, FileSystem, is_power_of_two, validate_fat32, data_start_of, lba_of, calculate_lba,
  mount,
}

-- The boot sector of a FAT32 volume, as far as the driver looks at it.
pub record IsFat32 (bpb : Bpb) : Type 0 where
  pub signature : bpb.ebpb.boot_partition_signature ≡ 43605
  pub sector : (k : ℕ) × (k < 4) × (bpb.bytes_per_sector ≡ 512 * 2 ^ k)
  pub cluster : (k : ℕ) × (k < 8) × (bpb.sectors_per_cluster ≡ 2 ^ k)
  pub root_entries : bpb.root_entry_count ≡ 0
  pub old_size : bpb.fat_size ≡ 0
  pub reserved : 0 < bpb.rsvd_sector_count

power_of_two : (x : ℕ) → is_power_of_two x ≡ true → (k : ℕ) × (k < 8) × (x ≡ 2 ^ k)
power_of_two x h = elim (Bool-cases (x == 1 || x == 2)) [
  | inl e ↦ elim (Bool-cases (x == 1)) [
    | inl e' ↦ (0, omega arith, ground arith)
    | inr e' ↦ (1, omega arith, ground arith)
  ]
  | inr e ↦ elim (Bool-cases (x == 4)) [
    | inl e4 ↦ (2, omega arith, ground arith)
    | inr e4 ↦ elim (Bool-cases (x == 8)) [
      | inl e8 ↦ (3, omega arith, ground arith)
      | inr e8 ↦ elim (Bool-cases (x == 16)) [
        | inl e16 ↦ (4, omega arith, ground arith)
        | inr e16 ↦ elim (Bool-cases (x == 32)) [
          | inl e32 ↦ (5, omega arith, ground arith)
          | inr e32 ↦ elim (Bool-cases (x == 64)) [
            | inl e64 ↦ (6, omega arith, ground arith)
            | inr e64 ↦ (7, omega arith, ground arith)
          ]
        ]
      ]
    ]
  ]
]

sector_power :
    (bpb : Bpb)
    → validate_fat32 bpb ≡ true
    → (k : ℕ) × (k < 4) × (bpb.bytes_per_sector ≡ 512 * 2 ^ k)
unfolding validate_fat32
sector_power bpb h = elim (Bool-cases (bpb.bytes_per_sector == 512)) [
  | inl e ↦ (0, omega arith, ground arith)
  | inr e ↦ elim (Bool-cases (bpb.bytes_per_sector == 1024)) [
    | inl e1 ↦ (1, omega arith, ground arith)
    | inr e1 ↦ elim (Bool-cases (bpb.bytes_per_sector == 2048)) [
      | inl e2 ↦ (2, omega arith, ground arith)
      | inr e2 ↦ (3, omega arith, ground arith)
    ]
  ]
]

validate-IsFat32 : (bpb : Bpb) → validate_fat32 bpb ≡ true → IsFat32 bpb
unfolding validate_fat32
validate-IsFat32 bpb h = record {
  signature = ground arith;
  sector = sector_power bpb h;
  cluster = power_of_two bpb.sectors_per_cluster (ground arith);
  root_entries = ground arith;
  old_size = ground arith;
  reserved = ground arith;
}

-- The sectors of the tables, and the first one of the clusters on the disk.
abbrev pub table_sectors : FatInfo → ℕ
table_sectors part = part.bpb.num_of_fats * part.bpb.ebpb.sectors_per_fat

abbrev pub first_sector : FatInfo → ℕ
first_sector part =
    part.gpt_partition.starting_lba + part.bpb.rsvd_sector_count + table_sectors part

-- Cluster `c` is `c - 2` clusters behind the tables, and `max_cluster` says whether it is one of the
-- volume: whether its sectors end where the volume does, or before.
pub record IsPlaced (part : FatInfo) (fs : FileSystem) (c : ℕ) : Type 0 where
  pub lba : calculate_lba fs c ≡ first_sector part + (c - 2) * part.bpb.sectors_per_cluster
  pub counted : (c ≤ fs.max_cluster) ↔ (
      calculate_lba fs c + part.bpb.sectors_per_cluster
      ≤ part.gpt_partition.starting_lba + part.bpb.total_sectors)

spc_small :
    (bpb : Bpb)
    → validate_fat32 bpb ≡ true
    → (0 < bpb.sectors_per_cluster) × (bpb.sectors_per_cluster < 256)
unfolding validate_fat32
spc_small bpb h = (ground arith, ground arith)

lba_at :
    (start spc c : ℕ)
    → 2 ≤ c
    → c < 2 ^ 32
    → start < 2 ^ 32
    → spc < 256
    → (if leb 2 (c % 2 ^ 32) then add64 start ((c % 2 ^ 32 - 2) * spc) else 0)
      ≡ start + (c - 2) * spc
lba_at start spc c lo hi low few =
    let same : c % 2 ^ 32 ≡ c = omega arith in
    let big : leb 2 c ≡ true = ground arith in
    let short : c - 2 ≤ 2 ^ 32 = omega arith in
    let few' : spc ≤ 256 = omega arith in
    let most = mul-le-mul short few' in rw (same, big) (omega (arith, most))

fits_iff : (c d k : ℕ) → 2 ≤ c → 0 < k → (c ≤ d / k + 1) ↔ ((c - 2) * k + k ≤ d)
fits_iff c d k lo pos =
    let law : (c - 2 + 1 ≤ d / k) ↔ ((c - 2 + 1) * k ≤ d) = le-div_iff_mul-le pos in
    let (to, from) = law in
    (λ h. let r = to (omega arith) in omega arith, λ h. let r = from (omega arith) in omega arith)

module _ (part : FatInfo) (valid : validate_fat32 part.bpb ≡ true)
    (start : part.data_start ≡ data_start_of part.gpt_partition part.bpb)
    (room : part.bpb.rsvd_sector_count + table_sectors part ≤ part.bpb.total_sectors)
    (total_u16 : part.bpb.total_sectors < 65536)
    (low : part.gpt_partition.starting_lba + part.bpb.total_sectors < 2 ^ 32) where
  data_start_lem : part.data_start ≡ first_sector part
  unfolding data_start_of
  data_start_lem = omega (arith, start)

  data_sectors_lem :
      (mount part).data_sectors
      ≡ part.bpb.total_sectors - part.bpb.rsvd_sector_count - table_sectors part
  unfolding mount
  data_sectors_lem = omega arith

  lba_lem :
      (c : ℕ)
      → 2 ≤ c
      → c < 2 ^ 32
      → calculate_lba (mount part) c ≡ first_sector part + (c - 2) * part.bpb.sectors_per_cluster
  unfolding calculate_lba lba_of mount
  lba_lem c lo hi =
      lba_at part.data_start part.bpb.sectors_per_cluster c lo hi (omega (arith, data_start_lem))
        (spc_small part.bpb valid).1
      ∙ ap (λ x. x + (c - 2) * part.bpb.sectors_per_cluster) data_start_lem

  counted_lem :
      (c : ℕ)
      → 2 ≤ c
      → (c ≤ (mount part).max_cluster) ↔ (
          (c - 2) * part.bpb.sectors_per_cluster + part.bpb.sectors_per_cluster
          ≤ (mount part).data_sectors)
  unfolding mount
  counted_lem c lo =
      fits_iff c (mount part).data_sectors part.bpb.sectors_per_cluster lo
        (spc_small part.bpb valid).0

  -- Suppose that `validate_fat32` accepts the boot sector of a partition, that `data_start` is as
  -- `init` works it out, that the 16-bit `total_sectors` leaves room for the reserved sectors and the
  -- tables, and that the volume ends below sector 2^32. Then the boot sector has the signature, a
  -- power of two from 512 to 4096 for the bytes of a sector and from 1 to 128 for the sectors of a
  -- cluster, 0 for the fields of older kinds of FAT and some reserved sectors; `mount` takes the
  -- product for the size of a cluster and the place of the root directory's cluster for `root_lba`;
  -- the clusters stand one behind the other from the end of the tables on, as `calculate_lba` has it;
  -- and a cluster is not above `max_cluster` just where its last sector lies within the volume.
  pub mount_lem :
      IsFat32 part.bpb
      × ((mount part).cluster_size ≡ part.bpb.sectors_per_cluster * part.bpb.bytes_per_sector)
      × ((mount part).root_lba ≡ calculate_lba (mount part) part.bpb.ebpb.root_directory_cluster)
      × ((c : ℕ) → 2 ≤ c → c < 2 ^ 32 → IsPlaced part (mount part) c)
  unfolding mount calculate_lba
  mount_lem = (
    validate-IsFat32 part.bpb valid,
    omega arith,
    refl,
    λ c lo hi.
        let lba = lba_lem c lo hi in
        let (to, from) = counted_lem c lo in
        let sectors = data_sectors_lem in
        record {
          lba = lba;
          counted = (
            λ h. let r = to h in omega (arith, lba, sectors, r),
            λ h. from (omega (arith, lba, sectors, h)),
          );
        },
  )
