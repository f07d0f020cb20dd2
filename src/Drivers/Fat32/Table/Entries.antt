-- ===== src/Drivers/Fat32/Table/Entries.antt =====
-- Where the entries of the table lie on the disk, and a volume whose fields fit their types.
use native.Mathlib.Nat.{mod-lt, div-add-mod, mul-le-mul_right, add-mul, div-le_self, mul_assoc}
use plum_os.Prelude.{
  ℕ, ◌+◌, ◌*◌, ◌/◌, ◌%◌, ◌^◌, ◌≤◌, ◌<◌, ◌≡◌, sym, ap, subst, ◌≢◌, ◌⊎◌, inl, inr, arith, word,
}
use plum_os.Drivers.LittleEndian.{le32}
use plum_os.Drivers.Fat32.{FileSystem}
use plum_os.Drivers.Fat32.Table.{fat_start_lba, fat_sector, entry_offset}

-- The sector of the disk is the sector of the volume, and holds whole entries; the tables have less
-- than 2^32 sectors in all, and 2^32 entries each at most; and the partition begins below 2^63. The
-- other bounds are those of the types.
pub record IsVolume (fs : FileSystem) (sector_size : ℕ) : Type 0 where
  pub sector : fs.fat.bpb.bytes_per_sector ≡ sector_size
  pub sector_pos : 0 < sector_size
  pub sector_by4 : fs.fat.bpb.bytes_per_sector / 4 * 4 ≡ fs.fat.bpb.bytes_per_sector
  pub sector_u16 : fs.fat.bpb.bytes_per_sector < 65536
  pub cluster : fs.cluster_size ≡ sector_size * fs.fat.bpb.sectors_per_cluster
  pub cluster_pos : 0 < fs.fat.bpb.sectors_per_cluster
  pub cluster_u8 : fs.fat.bpb.sectors_per_cluster < 256
  pub start : fs.fat.gpt_partition.starting_lba < 2 ^ 63
  pub rsvd_u16 : fs.fat.bpb.rsvd_sector_count < 65536
  pub tables : fs.fat.bpb.num_of_fats * fs.fat.bpb.ebpb.sectors_per_fat < 2 ^ 32
  pub entries : fs.fat.bpb.ebpb.sectors_per_fat * (fs.fat.bpb.bytes_per_sector / 4) ≤ 2 ^ 32
  pub start_u32 : fs.fat.data_start < 2 ^ 32
  pub last : fs.max_cluster ≤ 2 ^ 32

abbrev pub table_sector : FileSystem → ℕ → ℕ
table_sector fs k =
    fs.fat.gpt_partition.starting_lba
    + fs.fat.bpb.rsvd_sector_count
    + k * fs.fat.bpb.ebpb.sectors_per_fat

-- The address of the entry of a cluster in table `k`.
abbrev pub entry_address : FileSystem → ℕ → ℕ → ℕ
entry_address fs k cluster = table_sector fs k * fs.fat.bpb.bytes_per_sector + cluster * 4

-- The entry of a cluster in table `k` of a disk.
abbrev pub entry : FileSystem → (ℕ → ℕ) → ℕ → ℕ → ℕ
entry fs disk k cluster = le32 disk (entry_address fs k cluster)

order : (k j : ℕ) → (k < j) ⊎ ((j < k) ⊎ (k ≡ j))
order k j = ground arith

other : {k j c d : ℕ} → (k ≢ j) ⊎ (c ≢ d) → k ≡ j → c ≢ d
other (inl q) e = absurd (q e)
other (inr q) e = q

pub split_address : (l o b : ℕ) → (l + o / b) * b + o % b ≡ l * b + o
split_address l o b = omega (arith, add-mul l (o / b) b, div-add-mod o b)

module _ {fs : FileSystem} {sector_size : ℕ} (v : IsVolume fs sector_size) where
  pub skip-lt : (k : ℕ) → k < fs.fat.bpb.num_of_fats → k * fs.fat.bpb.ebpb.sectors_per_fat < 2 ^ 32
  skip-lt k h =
      let few : k ≤ fs.fat.bpb.num_of_fats = omega arith in
      let le = mul-le-mul_right fs.fat.bpb.ebpb.sectors_per_fat few in omega (arith, v.tables)

  pub fat_start_lba_lem :
      (k : ℕ)
      → k < fs.fat.bpb.num_of_fats
      → fat_start_lba fs (k * fs.fat.bpb.ebpb.sectors_per_fat) ≡ table_sector fs k
  unfolding fat_start_lba
  fat_start_lba_lem k h = omega (arith, v.start, v.rsvd_u16, skip-lt k h)

  -- The sector and the offset that the code works out are those of the entry.
  pub fat_sector_lem :
      (k c : ℕ)
      → k < fs.fat.bpb.num_of_fats
      → c ≤ fs.max_cluster
      → fat_sector fs (k * fs.fat.bpb.ebpb.sectors_per_fat) c * sector_size + entry_offset fs c
        ≡ entry_address fs k c
  fat_sector_lem k c h le =
      let b = fs.fat.bpb.bytes_per_sector in
      let t = table_sector fs k in
      let c4 : c * 4 % word ≡ c * 4 = omega (arith, v.last) in
      let q = div-le_self (c * 4) b in
      let small : (t + c * 4 / b) % word ≡ t + c * 4 / b =
        omega (arith, v.last, v.start, v.rsvd_u16, skip-lt k h) in
      rw (c4, fat_start_lba_lem k h, small, ← v.sector) (split_address t (c * 4) b)

  pub fat_sector_bound :
      (k c : ℕ)
      → k < fs.fat.bpb.num_of_fats
      → c ≤ fs.max_cluster
      → fat_sector fs (k * fs.fat.bpb.ebpb.sectors_per_fat) c + entry_offset fs c / sector_size + 4
        < word
  fat_sector_bound k c h le =
      let b = fs.fat.bpb.bytes_per_sector in
      let t = table_sector fs k in
      let c4 : c * 4 % word ≡ c * 4 = omega (arith, v.last) in
      let q = div-le_self (c * 4) b in
      let o = div-le_self (c * 4 % b) sector_size in
      let r = mod-lt (c * 4) (subst (λ z. 0 < z) (sym v.sector) v.sector_pos) in
      let small : (t + c * 4 / b) % word ≡ t + c * 4 / b =
        omega (arith, v.last, v.start, v.rsvd_u16, skip-lt k h) in
      rw (c4, fat_start_lba_lem k h, small)
        (omega (arith, v.last, v.start, v.rsvd_u16, v.sector_u16, skip-lt k h))

module _ (fs : FileSystem) where
  address_lem :
      (k c : ℕ)
      → entry_address fs k c
        ≡ (fs.fat.gpt_partition.starting_lba + fs.fat.bpb.rsvd_sector_count)
            * fs.fat.bpb.bytes_per_sector
          + k * (fs.fat.bpb.ebpb.sectors_per_fat * fs.fat.bpb.bytes_per_sector)
          + c * 4
  address_lem k c =
      let b = fs.fat.bpb.bytes_per_sector in
      let p = fs.fat.bpb.ebpb.sectors_per_fat in
      omega (
        arith,
        add-mul (fs.fat.gpt_partition.starting_lba + fs.fat.bpb.rsvd_sector_count) (k * p) b,
        mul_assoc k p b,
      )

  -- An entry of a table lies before every entry of the tables behind it.
  pub tables_apart :
      (k j c d : ℕ)
      → (c + 1) * 4 ≤ fs.fat.bpb.ebpb.sectors_per_fat * fs.fat.bpb.bytes_per_sector
      → k < j
      → entry_address fs k c + 4 ≤ entry_address fs j d
  tables_apart k j c d h lt =
      let t = fs.fat.bpb.ebpb.sectors_per_fat * fs.fat.bpb.bytes_per_sector in
      let more : k + 1 ≤ j = omega arith in
      omega (arith, address_lem k c, address_lem j d, mul-le-mul_right t more, add-mul k 1 t)

  -- The address lies outside the entry of a cluster in table `k`.
  abbrev pub Outside : ℕ → ℕ → ℕ → Type 0
  Outside k c a = (a < entry_address fs k c) ⊎ (entry_address fs k c + 4 ≤ a)

  abbrev pub Fits : ℕ → Type 0
  Fits c = (c + 1) * 4 ≤ fs.fat.bpb.ebpb.sectors_per_fat * fs.fat.bpb.bytes_per_sector

  same_table : (k j c d i : ℕ) → k ≡ j → c ≢ d → i < 4 → Outside k c (entry_address fs j d + i)
  same_table k j c d i e ne lt =
      let at = ap (λ z. entry_address fs z d) e in
      elim (order c d) [
        | inl before ↦ inr (omega arith)
        | inr (inl after) ↦ inl (omega arith)
        | inr (inr same) ↦ absurd (ne same)
      ]

  -- Two entries do not overlap.
  pub entries_apart :
      (k j c d i : ℕ)
      → Fits c
      → Fits d
      → (k ≢ j) ⊎ (c ≢ d)
      → i < 4
      → Outside k c (entry_address fs j d + i)
  entries_apart k j c d i fc fd ne lt = elim (order k j) [
    | inl before ↦ let far = tables_apart k j c d fc before in inr (omega arith)
    | inr (inl after) ↦ let far = tables_apart j k d c fd after in inl (omega arith)
    | inr (inr same) ↦ same_table k j c d i same (other ne same) lt
  ]
