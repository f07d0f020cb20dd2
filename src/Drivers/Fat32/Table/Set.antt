-- ===== src/Drivers/Fat32/Table/Set.antt =====
-- `set_next_cluster` changes the entry of one cluster in the tables in use, and nothing else.
use plum_os.Prelude.{
  ℕ, zero, suc, ◌+◌, ◌-◌, ◌*◌, ◌%◌, ◌^◌, ◌≤◌, ◌<◌, ◌≡◌, refl, sym, ap, ◌∙◌, subst, ◌≢◌, ◌⊎◌, inl,
  inr, Bool, true, false, ◌||◌, Option, none, some, arith, ltb, leb, ◌==◌, if◌then◌else◌,
  Bool-cases,
}
use plum_os.Std.Memory.{Bytes}
use plum_os.Drivers.LittleEndian.{le32, le32-eq_buffer, le32-bytes32, bytes32, buffer_of}
use plum_os.Drivers.Disk.Device.{Device, IsDevice}
use plum_os.Drivers.Fat32.{FileSystem}
use plum_os.Drivers.Fat32.Table.{
  mirroring_disabled, active_fat, fat_sector, entry_offset, write_entry, write_backups,
  backups_after, set_from, set_next_cluster, merge_entry, link_of, get_next_cluster,
}
use plum_os.Drivers.Fat32.Table.Entries.{
  IsVolume, entry, entry_address, fat_sector_lem, fat_sector_bound, Fits, skip-lt,
}
use plum_os.Drivers.Fat32.Table.Changed.{InUse, IsSetTo, set_elsewhere, set_both, set_none}
use plum_os.Drivers.Fat32.Table.Get.{
  next_cluster, entry_read, entry_read_lem, entry_read_keeps, get_next-gives,
}

active_or_backup : {n a : ℕ} (k : ℕ) → k < n → a ≡ 0 → (k ≡ a) ⊎ ((1 ≤ k) × (k < n))
active_or_backup k h e = ground arith

one_table :
    {fs : FileSystem} (c value : ℕ) (old new : ℕ → ℕ)
    → active_fat fs < fs.fat.bpb.num_of_fats
    → mirroring_disabled fs ≡ true
    → IsSetTo fs (λ j. j ≡ active_fat fs) old new c value
    → IsSetTo fs (InUse fs) old new c value
one_table {fs} c value old new few off p = record {
  here = λ k m. p.here k (elim m.1 [ inl e ↦ e | inr on ↦ absurd (cc) ]);
  elsewhere = λ a out.
      p.elsewhere a (λ k e. out k (subst (λ z. z < fs.fat.bpb.num_of_fats) (sym e) few, inl e));
}

set_next-cases :
    {S : Type 0} (dev : Device S) (fs : FileSystem) (c value : ℕ) (s : S)
    → (set_next_cluster dev fs c value s ≡ (false, s))
      ⊎ ((2 ≤ c)
          × (c ≤ fs.max_cluster)
          × (active_fat fs < fs.fat.bpb.num_of_fats)
          × (set_next_cluster dev fs c value s
              ≡ set_from dev fs c value (entry_read dev fs (active_fat fs) c s)))
unfolding set_next_cluster
set_next-cases dev fs c value s =
    elim (Bool-cases (
      fs.fat.bpb.bytes_per_sector == 0
      || fs.fat.bpb.num_of_fats == 0
      || fs.fat.bpb.ebpb.sectors_per_fat == 0
      || ltb c 2
      || ltb fs.max_cluster c)) [
        | inl bad ↦ inl (rw bad refl)
        | inr good ↦ elim (Bool-cases (leb fs.fat.bpb.num_of_fats (active_fat fs))) [
          | inl bad ↦ inl (rw (good, bad) refl)
          | inr few ↦ inr (ground arith, ground arith, ground arith, rw (good, few) refl)
        ]
      ]

ne_of : {a b : ℕ} → (a == b) ≡ false → a ≢ b
ne_of h e = ground arith

-- The upper bits say nothing.
link_of-merge : (m value old : ℕ) → link_of m (merge_entry value old) ≡ link_of m value
unfolding link_of
link_of-merge m value old =
    let same : merge_entry value old % 268435456 ≡ value % 268435456 = omega arith in rw same refl

first_or_later : (i k : ℕ) {n : ℕ} → i ≤ k → k < n → (k ≡ i) ⊎ ((suc i ≤ k) × (k < n))
first_or_later i k lo hi = ground arith

module _ {S : Type 0} {dev : Device S} {fs : FileSystem} {sector_size : ℕ}
    (w : IsDevice dev sector_size) (v : IsVolume fs sector_size) where
  write_entry_lem :
      (k c value : ℕ) (s : S)
      → k < fs.fat.bpb.num_of_fats
      → c ≤ fs.max_cluster
      → value < 4294967296
      → (write_entry dev fs (k * fs.fat.bpb.ebpb.sectors_per_fat) c value s).0 ≡ true
      → IsSetTo fs
          (λ j. j ≡ k)
          (w.disk s)
          (w.disk (write_entry dev fs (k * fs.fat.bpb.ebpb.sectors_per_fat) c value s).1)
          c
          value
  write_entry_lem k c value s h le lt ok =
      let skip = k * fs.fat.bpb.ebpb.sectors_per_fat in
      let bs = buffer_of (bytes32 value) in
      let bound = fat_sector_bound v k c h le in
      let at = fat_sector_lem v k c h le in
      let new = w.disk (write_entry dev fs skip c value s).1 in
      record {
        here = λ j e.
            ap (λ z. entry fs new z c) e
            ∙ sym (
                le32-eq_buffer bs new (entry_address fs k c) (λ i less. sym (
                  ap (λ a. new (a + i)) (sym at)
                  ∙ w.write_puts (fat_sector fs skip c) (entry_offset fs c) 4 bs s i bound ok
                      less)))
            ∙ le32-bytes32 value lt;
        elsewhere = λ a out.
            w.write_keeps (fat_sector fs skip c) (entry_offset fs c) 4 bs s a bound ok
              (subst (λ z. (a < z) ⊎ (z + 4 ≤ a)) (sym at) (out k refl));
      }

  backups_step :
      (n i c value : ℕ) (succes : Bool) (s : S)
      → i < fs.fat.bpb.num_of_fats
      → write_backups dev fs (suc n) i c value succes s
        ≡ write_backups dev fs n
            (suc i)
            c
            value
            (if (write_entry dev fs (i * fs.fat.bpb.ebpb.sectors_per_fat) c value s).0
              then succes
              else false)
            (write_entry dev fs (i * fs.fat.bpb.ebpb.sectors_per_fat) c value s).1
  unfolding write_backups
  backups_step n i c value succes s h =
      let p = fs.fat.bpb.ebpb.sectors_per_fat in
      let small : i * p % 2 ^ 32 ≡ i * p = omega (arith, skip-lt v i h) in rw small refl

  both_true : (a b : Bool) → (if a then b else false) ≡ true → (a ≡ true) × (b ≡ true)
  both_true true b h = (refl, h)
  both_true false b h = cc

  write_backups_lem :
      (n i c value : ℕ) (succes : Bool) (s : S)
      → i + n ≡ fs.fat.bpb.num_of_fats
      → c ≤ fs.max_cluster
      → Fits fs c
      → value < 4294967296
      → (write_backups dev fs n i c value succes s).0 ≡ true
      → (succes ≡ true)
        × IsSetTo fs
            (λ k. (i ≤ k) × (k < fs.fat.bpb.num_of_fats))
            (w.disk s)
            (w.disk (write_backups dev fs n i c value succes s).1)
            c
            value
  unfolding write_backups
  write_backups_lem zero i c value succes s e le f lt ok =
      (ok, set_none (λ k m. absurd (omega (arith, m.0, m.1))))
  write_backups_lem (suc n) i c value succes s e le f lt ok =
      let few : i < fs.fat.bpb.num_of_fats = omega arith in
      let step = backups_step n i c value succes s few in
      let r = write_entry dev fs (i * fs.fat.bpb.ebpb.sectors_per_fat) c value s in
      let (both, later) =
        write_backups_lem n (suc i) c value (if r.0 then succes else false) r.1 (omega arith) le f
          lt (ap (λ x. x.0) (sym step) ∙ ok) in
      let (wrote, before) = both_true r.0 succes both in
      let one = write_entry_lem i c value s few le lt wrote in
      (
        before,
        subst
            (λ x.
              IsSetTo fs (λ k. (i ≤ k) × (k < fs.fat.bpb.num_of_fats)) (w.disk s) (w.disk x.1) c
                value)
            (sym step)
            (set_both f one later (λ k m. first_or_later i k m.0 m.1)
              (λ k m. (omega arith, omega arith)) (λ k m. (omega (arith, m.0), m.1))
              (λ k j m q e'. omega (arith, q.0))),
      )

  -- After the active table was written, with what `backups_after` returns.
  backups_after_lem :
      (c value : ℕ) (s : S) (r : Bool × S)
      → c ≤ fs.max_cluster
      → Fits fs c
      → value < 4294967296
      → active_fat fs < fs.fat.bpb.num_of_fats
      → (r.0 ≡ true → IsSetTo fs (λ j. j ≡ active_fat fs) (w.disk s) (w.disk r.1) c value)
      → (backups_after dev fs c value r).0 ≡ true
      → IsSetTo fs (InUse fs) (w.disk s) (w.disk (backups_after dev fs c value r).1) c value
  unfolding backups_after
  backups_after_lem c value s (false, s') le f lt few first ok = cc
  backups_after_lem c value s (true, s') le f lt few first ok =
      elim (Bool-cases (mirroring_disabled fs)) [
        | inl off ↦
            let run : backups_after dev fs c value (true, s') ≡ (true, s') = rw off refl in
            subst (λ x. IsSetTo fs (InUse fs) (w.disk s) (w.disk x.1) c value) (sym run)
              (one_table c value (w.disk s) (w.disk s') few off (first refl))
        | inr on ↦
            let run : backups_after dev fs c value (true, s')
                ≡ write_backups dev fs (fs.fat.bpb.num_of_fats - 1) 1 c value true s' =
              rw on refl in
            let zeroth : active_fat fs ≡ 0 = rw on refl in
            let (before, later) =
              write_backups_lem (fs.fat.bpb.num_of_fats - 1) 1 c value true s' (omega arith) le f lt
                (ap (λ x. x.0) (sym run) ∙ ok) in
            subst (λ x. IsSetTo fs (InUse fs) (w.disk s) (w.disk x.1) c value) (sym run)
              (set_both f (first refl) later (λ k m. active_or_backup k m.0 zeroth)
                (λ k m. (subst (λ z. z < fs.fat.bpb.num_of_fats) (sym m) few, inl m))
                (λ k m. (m.1, inr on)) (λ k j m q e. omega (arith, q.0)))
      ]

  set_from_lem :
      (c value : ℕ) (s : S) (r : Option Bytes × S)
      → c ≤ fs.max_cluster
      → Fits fs c
      → active_fat fs < fs.fat.bpb.num_of_fats
      → w.disk r.1 ≡ w.disk s
      → ((b : Bytes) → r.0 ≡ some b → le32 b 0 ≡ entry fs (w.disk s) (active_fat fs) c)
      → (set_from dev fs c value r).0 ≡ true
      → IsSetTo fs
          (InUse fs)
          (w.disk s)
          (w.disk (set_from dev fs c value r).1)
          c
          (merge_entry value (entry fs (w.disk s) (active_fat fs) c))
  unfolding set_from
  set_from_lem c value s (none, s') le f few same read ok = cc
  set_from_lem c value s (some b, s') le f few same read ok =
      let merged = merge_entry value (le32 b 0) in
      let lt : merged < 4294967296 = omega arith in
      let done =
        backups_after_lem c merged s'
          (write_entry dev fs (active_fat fs * fs.fat.bpb.ebpb.sectors_per_fat) c merged s') le f lt
          few (write_entry_lem (active_fat fs) c merged s' few le lt) ok in
      subst
        (λ d.
          IsSetTo fs (InUse fs) d (w.disk (set_from dev fs c value (some b, s')).1) c
            (merge_entry value (entry fs (w.disk s) (active_fat fs) c)))
        same
        (subst
          (λ z.
            IsSetTo fs (InUse fs) (w.disk s') (w.disk (set_from dev fs c value (some b, s')).1) c
              (merge_entry value z))
          (read b refl) done)

  -- If `set_next_cluster` returns true for an entry that its table has room for, then the cluster is
  -- one of the volume; every table in use (the active one, or with mirroring all) has the lower 28
  -- bits of the value in the entry of the cluster, with the upper four bits that the active table had
  -- there; and no other byte of the disk has changed.
  pub set_next_cluster_lem :
      (c value : ℕ) (s : S)
      → Fits fs c
      → (set_next_cluster dev fs c value s).0 ≡ true
      → (2 ≤ c)
        × (c ≤ fs.max_cluster)
        × (active_fat fs < fs.fat.bpb.num_of_fats)
        × IsSetTo fs
            (InUse fs)
            (w.disk s)
            (w.disk (set_next_cluster dev fs c value s).1)
            c
            (merge_entry value (entry fs (w.disk s) (active_fat fs) c))
  set_next_cluster_lem c value s f ok = elim (set_next-cases dev fs c value s) [
    | inl no_run ↦ cc
    | inr (lo, hi, few, run) ↦ (
      lo,
      hi,
      few,
      subst
          (λ x.
            IsSetTo fs (InUse fs) (w.disk s) (w.disk x.1) c
              (merge_entry value (entry fs (w.disk s) (active_fat fs) c)))
          (sym run)
          (set_from_lem c value s (entry_read dev fs (active_fat fs) c s) hi f few
            (entry_read_keeps w v (active_fat fs) c s few hi)
            (λ b. entry_read_lem w v (active_fat fs) c s few hi) (ap (λ x. x.0) (sym run) ∙ ok)),
    )
  ]

  -- If `set_next_cluster` returns true, and after it `get_next_cluster` succeeds for a cluster, where
  -- the table has room for both entries, then it gives the link that was set, if it is the same
  -- cluster, and else the link that was there before.
  pub get_next-set_next :
      (c value d : ℕ) (s : S) (n : ℕ)
      → Fits fs c
      → Fits fs d
      → (set_next_cluster dev fs c value s).0 ≡ true
      → (get_next_cluster dev fs d (set_next_cluster dev fs c value s).1).0 ≡ some n
      → (if d == c then link_of fs.max_cluster value else next_cluster fs (w.disk s) d) ≡ some n
  get_next-set_next c value d s n fc fd ok got =
      let (lo, hi, few, p) = set_next_cluster_lem c value s fc ok in
      let s' = (set_next_cluster dev fs c value s).1 in
      let link = get_next-gives w v d s' n got in
      elim (Bool-cases (d == c)) [
        | inl eq ↦
            let same : d ≡ c = ground arith in
            let now = p.here (active_fat fs) (few, inl refl) in
            rw eq (
              sym (link_of-merge fs.max_cluster value (entry fs (w.disk s) (active_fat fs) c))
              ∙ ap (link_of fs.max_cluster) (sym now)
              ∙ ap (next_cluster fs (w.disk s')) (sym same)
              ∙ link)
        | inr ne ↦
            let other : c ≢ d = λ e. ne_of ne (sym e) in
            let kept = set_elsewhere (active_fat fs) d p fc fd (λ k m. inr other) in
            rw ne (ap (link_of fs.max_cluster) (sym kept) ∙ link)
      ]
