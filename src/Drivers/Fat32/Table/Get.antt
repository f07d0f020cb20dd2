-- ===== src/Drivers/Fat32/Table/Get.antt =====
-- `get_next_cluster` gives what the active table says.
use mathlib.Core.Option.{some-injective}
use plum_os.Prelude.{
  ℕ, ◌+◌, ◌*◌, ◌≤◌, ◌<◌, ◌≡◌, refl, sym, ap, ◌∙◌, subst, ◌⊎◌, inl, inr, false, ◌||◌, Option, none,
  some, arith, ltb, leb, ◌==◌, Bool-cases,
}
use plum_os.Std.Memory.{Bytes}
use plum_os.Drivers.LittleEndian.{le32, le32-eq_buffer}
use plum_os.Drivers.Disk.Device.{Device, IsDevice, Works}
use plum_os.Drivers.Fat32.{FileSystem}
use plum_os.Drivers.Fat32.Table.{
  active_fat, fat_sector, entry_offset, link_of, next_from, get_next_cluster,
}
use plum_os.Drivers.Fat32.Table.Entries.{
  IsVolume, entry, entry_address, fat_sector_lem, fat_sector_bound,
}

-- The link of a cluster in the active table of a disk.
abbrev pub next_cluster : FileSystem → (ℕ → ℕ) → ℕ → Option ℕ
next_cluster fs disk c = link_of fs.max_cluster (entry fs disk (active_fat fs) c)

abbrev pub entry_read : {S : Type 0} → Device S → FileSystem → ℕ → ℕ → S → Option Bytes × S
entry_read dev fs k c s =
    dev.read_at (fat_sector fs (k * fs.fat.bpb.ebpb.sectors_per_fat) c) (entry_offset fs c) 4 s

-- A link is the end of a chain or a cluster that the volume has.
pub link-in_range : (m v : ℕ) {n : ℕ} → link_of m v ≡ some n → (n ≡ 0) ⊎ ((2 ≤ n) × (n ≤ m))
unfolding link_of
link-in_range m v h = ground arith

module _ {S : Type 0} {dev : Device S} {fs : FileSystem} {sector_size : ℕ}
    (w : IsDevice dev sector_size) (v : IsVolume fs sector_size) where
  pub entry_read_lem :
      (k c : ℕ) (s : S) {b : Bytes}
      → k < fs.fat.bpb.num_of_fats
      → c ≤ fs.max_cluster
      → (entry_read dev fs k c s).0 ≡ some b
      → le32 b 0 ≡ entry fs (w.disk s) k c
  entry_read_lem k c s {b} h le e =
      let skip = k * fs.fat.bpb.ebpb.sectors_per_fat in
      let bound = fat_sector_bound v k c h le in
      le32-eq_buffer b (w.disk s) (entry_address fs k c) (λ i lt.
        w.read_gives (fat_sector fs skip c) (entry_offset fs c) 4 s b i bound e lt
        ∙ ap (λ a. w.disk s (a + i)) (fat_sector_lem v k c h le))

  pub entry_read_keeps :
      (k c : ℕ) (s : S)
      → k < fs.fat.bpb.num_of_fats
      → c ≤ fs.max_cluster
      → w.disk (entry_read dev fs k c s).1 ≡ w.disk s
  entry_read_keeps k c s h le =
      let skip = k * fs.fat.bpb.ebpb.sectors_per_fat in
      w.read_keeps (fat_sector fs skip c) (entry_offset fs c) 4 s (fat_sector_bound v k c h le)

  -- The cases of `get_next_cluster`: it refuses, or it reads the entry.
  pub data GetNext (c : ℕ) (s : S) : Type 0 where
    refused : (get_next_cluster dev fs c s ≡ (none, s)) → GetNext c s
    reads :
        2 ≤ c
        → c ≤ fs.max_cluster
        → active_fat fs < fs.fat.bpb.num_of_fats
        → get_next_cluster dev fs c s ≡ next_from dev fs (entry_read dev fs (active_fat fs) c s)
        → GetNext c s

  pub GetNext-cases : (c : ℕ) (s : S) → GetNext c s
  unfolding get_next_cluster
  GetNext-cases c s =
      elim (Bool-cases (fs.fat.bpb.bytes_per_sector == 0 || ltb c 2 || ltb fs.max_cluster c)) [
        | inl bad ↦ refused (rw bad refl)
        | inr good ↦ elim (Bool-cases (leb fs.fat.bpb.num_of_fats (active_fat fs))) [
          | inl bad ↦ refused (rw (good, bad) refl)
          | inr few ↦ reads (ground arith) (ground arith) (ground arith) (rw (good, few) refl)
        ]
      ]

  next_from-given :
      (r : Option Bytes × S) (n : ℕ)
      → (next_from dev fs r).0 ≡ some n
      → (b : Bytes) × (r.0 ≡ some b) × (link_of fs.max_cluster (le32 b 0) ≡ some n)
  unfolding next_from
  next_from-given (none, s) n h = cc
  next_from-given (some b, s) n h = (b, refl, h)

  next_from-state : (r : Option Bytes × S) → (next_from dev fs r).1 ≡ r.1
  unfolding next_from
  next_from-state (none, s) = refl
  next_from-state (some b, s) = refl

  pub get_next-keeps : (c : ℕ) (s : S) → w.disk (get_next_cluster dev fs c s).1 ≡ w.disk s
  get_next-keeps c s = elim (GetNext-cases c s) [
    | refused e ↦ ap (λ r. w.disk r.1) e
    | reads lo hi few e ↦
        ap (λ r. w.disk r.1) e
        ∙ ap w.disk (next_from-state (entry_read dev fs (active_fat fs) c s))
        ∙ entry_read_keeps (active_fat fs) c s few hi
  ]

  pub get_next-gives :
      (c : ℕ) (s : S) (n : ℕ)
      → (get_next_cluster dev fs c s).0 ≡ some n
      → next_cluster fs (w.disk s) c ≡ some n
  get_next-gives c s n h = elim (GetNext-cases c s) [
    | refused e ↦ cc
    | reads lo hi few e ↦
        let (b, got, link) =
          next_from-given (entry_read dev fs (active_fat fs) c s) n (ap (λ r. r.0) (sym e) ∙ h) in
        ap (link_of fs.max_cluster) (sym (entry_read_lem (active_fat fs) c s few hi got)) ∙ link
  ]

  next_from-read :
      (r : Option Bytes × S) (b : Bytes)
      → r.0 ≡ some b
      → (next_from dev fs r).0 ≡ link_of fs.max_cluster (le32 b 0)
  unfolding next_from
  next_from-read (none, s) b e = cc
  next_from-read (some b', s) b e =
      ap (λ z. link_of fs.max_cluster (le32 z 0)) (some-injective _ _ e)

  -- On a disk that works it says what the table says of a cluster of the volume.
  pub get_next-Works :
      (c : ℕ) (s : S)
      → Works dev
      → 2 ≤ c
      → c ≤ fs.max_cluster
      → active_fat fs < fs.fat.bpb.num_of_fats
      → (get_next_cluster dev fs c s).0 ≡ next_cluster fs (w.disk s) c
  unfolding get_next_cluster
  get_next-Works c s works lo hi few =
      let full : 0 < fs.fat.bpb.bytes_per_sector = subst (λ z. 0 < z) (sym v.sector) v.sector_pos in
      let good : (fs.fat.bpb.bytes_per_sector == 0 || ltb c 2 || ltb fs.max_cluster c) ≡ false =
        ground arith in
      let table : leb fs.fat.bpb.num_of_fats (active_fat fs) ≡ false = ground arith in
      let run : get_next_cluster dev fs c s
          ≡ next_from dev fs (entry_read dev fs (active_fat fs) c s) =
        rw (good, table) refl in
      let skip = active_fat fs * fs.fat.bpb.ebpb.sectors_per_fat in
      let (b, got) = works (fat_sector fs skip c) (entry_offset fs c) 4 s in
      ap (λ r. r.0) run
      ∙ next_from-read (entry_read dev fs (active_fat fs) c s) b got
      ∙ ap (link_of fs.max_cluster) (entry_read_lem (active_fat fs) c s few hi got)
