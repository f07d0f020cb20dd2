-- ===== src/Drivers/Fat32/Table/Find.antt =====
-- `find_free_cluster` finds the lowest free cluster.
use native.Mathlib.Nat.{add-mul, mul-le-mul_right, mul_assoc}
use mathlib.Core.Option.{some-injective}
use plum_os.Prelude.{
  ℕ, zero, suc, ◌+◌, ◌*◌, ◌/◌, ◌%◌, ◌^◌, ◌≤◌, ◌<◌, ◌≡◌, refl, sym, ap, ◌∙◌, subst, ◌⊎◌, inl, inr,
  Bool, true, false, Option, none, some, arith, leb, ◌==◌, Bool-cases, Option-cases, word, add64,
}
use plum_os.Std.Memory.{Bytes}
use plum_os.Drivers.LittleEndian.{le32, le32-eq}
use plum_os.Drivers.Disk.Device.{Device, IsDevice}
use plum_os.Drivers.Fat32.{FileSystem}
use plum_os.Drivers.Fat32.Table.{
  active_fat, fat_start_lba, scan_sector, find_from, find_free_cluster,
}
use plum_os.Drivers.Fat32.Table.Scan.{AllUsed, Lowest, Scanned, scan_sector_lem, used_both}
use plum_os.Drivers.Fat32.Table.Entries.{
  IsVolume, entry, entry_address, table_sector, fat_start_lba_lem,
}

suc_mul : (j n : ℕ) → suc j * n ≡ j * n + n
suc_mul j n = grind arith

before : (j n : ℕ) → j * n ≤ suc j * n
before j n = omega (arith, suc_mul j n)

unreadable : {A : Type 0} {o : Option A} → (b : A) × (o ≡ some b) → o ≡ none → ⊥
unreadable (b, e) h = cc

lower :
    (value : ℕ → ℕ) (lo mid c : ℕ) {m : ℕ}
    → lo ≤ mid
    → AllUsed value lo mid
    → Lowest value mid m c
    → Lowest value lo m c
lower value lo mid c le used p = record {
  from = omega (arith, p.from);
  real = p.real;
  below = p.below;
  free = p.free;
  lowest = used_both value lo mid c used p.lowest;
}

sector_address :
    (t j per k i b : ℕ) → per * 4 ≡ b → (t + j) * b + (k * 4 + i) ≡ t * b + (j * per + k) * 4 + i
sector_address t j per k i b e = omega (arith, add-mul t j b, ap (λ z. j * z) e, mul_assoc j per 4)

-- Every read of a sector succeeds.
abbrev pub Readable : {S : Type 0} → Device S → Type 0
Readable {S} dev = (l : ℕ) (s : S) → (b : Bytes) × ((dev.read_one l s).0 ≡ some b)

module _ {S : Type 0} {dev : Device S} {fs : FileSystem} {sector_size : ℕ}
    (w : IsDevice dev sector_size) (v : IsVolume fs sector_size)
    (few : active_fat fs < fs.fat.bpb.num_of_fats) where
  abbrev per : ℕ
  per = fs.fat.bpb.bytes_per_sector / 4

  abbrev spf : ℕ
  spf = fs.fat.bpb.ebpb.sectors_per_fat

  abbrev start : ℕ
  start = fat_start_lba fs (active_fat fs * fs.fat.bpb.ebpb.sectors_per_fat)

  start_sector :
      (j : ℕ)
      → j < fs.fat.bpb.ebpb.sectors_per_fat
      → add64 (fat_start_lba fs (active_fat fs * fs.fat.bpb.ebpb.sectors_per_fat)) j
        ≡ table_sector fs (active_fat fs) + j
  start_sector j lt =
      let k = active_fat fs in
      let p = fs.fat.bpb.ebpb.sectors_per_fat in
      let more : k + 1 ≤ fs.fat.bpb.num_of_fats = omega arith in
      let room : k * p + p < 2 ^ 32 =
        omega (arith, v.tables, mul-le-mul_right p more, add-mul k 1 p) in
      let small : (table_sector fs k + j) % word ≡ table_sector fs k + j =
        omega (arith, v.start, v.rsvd_u16) in
      rw (fat_start_lba_lem v k few) small

  -- A sector of the active table holds the entries of its clusters.
  sector_read :
      (j k : ℕ) (s : S) (b : Bytes) (d : ℕ → ℕ)
      → w.disk s ≡ d
      → j < fs.fat.bpb.ebpb.sectors_per_fat
      → (dev.read_one
          (add64 (fat_start_lba fs (active_fat fs * fs.fat.bpb.ebpb.sectors_per_fat)) j)
          s).0
        ≡ some b
      → k < fs.fat.bpb.bytes_per_sector / 4
      → le32 b (k * 4) ≡ entry fs d (active_fat fs) (j * (fs.fat.bpb.bytes_per_sector / 4) + k)
  sector_read j k s b d same lt e less =
      let n = fs.fat.bpb.bytes_per_sector / 4 in
      let bytes = fs.fat.bpb.bytes_per_sector in
      let t = table_sector fs (active_fat fs) in
      let l = add64 (fat_start_lba fs (active_fat fs * fs.fat.bpb.ebpb.sectors_per_fat)) j in
      le32-eq b d (k * 4) (entry_address fs (active_fat fs) (j * n + k)) (λ i four.
        w.one_gives l s b (k * 4 + i) e (omega (arith, v.sector, v.sector_by4))
        ∙ ap (λ f. f (l * sector_size + (k * 4 + i))) same
        ∙ ap (λ z. d (z * sector_size + (k * 4 + i))) (start_sector j lt)
        ∙ ap (λ z. d ((t + j) * z + (k * 4 + i))) (sym v.sector)
        ∙ ap d (sector_address t j n k i bytes v.sector_by4))

  -- What the outer loop says, from sector `j` on.
  record Found (d : ℕ → ℕ) (j : ℕ) (r : Option ℕ × S) : Type 0 where
    same_disk : w.disk r.1 ≡ d
    found :
        (c : ℕ)
        → r.0 ≡ some c
        → Lowest
            (entry fs d (active_fat fs))
            (j * (fs.fat.bpb.bytes_per_sector / 4))
            fs.max_cluster
            c
    full :
        Readable dev
        → r.0 ≡ none
        → (top : ℕ) → top ≤ fs.max_cluster
        → top ≤ fs.fat.bpb.ebpb.sectors_per_fat * (fs.fat.bpb.bytes_per_sector / 4)
        → AllUsed (entry fs d (active_fat fs)) (j * (fs.fat.bpb.bytes_per_sector / 4)) top

  -- The rounds of the outer loop.
  find_from-failed :
      (n l j : ℕ) (s : S)
      → (dev.read_one (add64 l j) s).0 ≡ none
      → find_from dev fs (suc n) l j s ≡ (none, (dev.read_one (add64 l j) s).1)
  unfolding find_from
  find_from-failed n l j s e = rw (e, find_from) refl

  find_from-through :
      (n l j : ℕ) (s : S) (b : Bytes)
      → (dev.read_one (add64 l j) s).0 ≡ some b
      → scan_sector
          (fs.fat.bpb.bytes_per_sector / 4)
          0
          (j * (fs.fat.bpb.bytes_per_sector / 4))
          fs.max_cluster
          b
        ≡ none
      → find_from dev fs (suc n) l j s ≡ find_from dev fs n l (suc j) (dev.read_one (add64 l j) s).1
  unfolding find_from
  find_from-through n l j s b e q = rw (e, find_from) (rw (q, find_from) refl)

  find_from-left :
      (n l j : ℕ) (s : S) (b : Bytes) (r : Option ℕ)
      → (dev.read_one (add64 l j) s).0 ≡ some b
      → scan_sector
          (fs.fat.bpb.bytes_per_sector / 4)
          0
          (j * (fs.fat.bpb.bytes_per_sector / 4))
          fs.max_cluster
          b
        ≡ some r
      → find_from dev fs (suc n) l j s ≡ (r, (dev.read_one (add64 l j) s).1)
  unfolding find_from
  find_from-left n l j s b r e q = rw (e, find_from) (rw q refl)

  -- What the inner loop says of sector `j`.
  sector-Scanned :
      (j : ℕ) (s : S) (b : Bytes) (d : ℕ → ℕ)
      → w.disk s ≡ d
      → j < fs.fat.bpb.ebpb.sectors_per_fat
      → (dev.read_one
          (add64 (fat_start_lba fs (active_fat fs * fs.fat.bpb.ebpb.sectors_per_fat)) j)
          s).0
        ≡ some b
      → Scanned
          (entry fs d (active_fat fs))
          (j * (fs.fat.bpb.bytes_per_sector / 4))
          (suc j * (fs.fat.bpb.bytes_per_sector / 4))
          fs.max_cluster
          (scan_sector
            (fs.fat.bpb.bytes_per_sector / 4)
            0
            (j * (fs.fat.bpb.bytes_per_sector / 4))
            fs.max_cluster
            b)
  sector-Scanned j s b d same lt e =
      let n = fs.fat.bpb.bytes_per_sector / 4 in
      let first = j * n in
      let value = entry fs d (active_fat fs) in
      let r = scan_sector n 0 first fs.max_cluster b in
      let next : suc j * n ≡ first + n = suc_mul j n in
      let room = mul-le-mul_right n lt in
      let zeroth : first + 0 ≡ first = omega arith in
      let last : first + 0 + n ≡ suc j * n = omega arith in
      let p =
        scan_sector_lem value n 0 first fs.max_cluster b (omega (arith, v.entries))
          (λ k lo hi. sector_read j k s b d same lt e (omega arith)) in
      subst (λ z. Scanned value first z fs.max_cluster r) last
        (subst (λ z. Scanned value z (first + 0 + n) fs.max_cluster r) zeroth p)

  stopped :
      (j : ℕ) (d : ℕ → ℕ) (s : S) (r : Option ℕ)
      → w.disk s ≡ d
      → Scanned
          (entry fs d (active_fat fs))
          (j * (fs.fat.bpb.bytes_per_sector / 4))
          (suc j * (fs.fat.bpb.bytes_per_sector / 4))
          fs.max_cluster
          (some r)
      → Found d j (r, s)
  stopped j d s none same p = record {
    same_disk = same;
    found = λ c h. cc;
    full = λ ok h top a b k lo hi c. p k lo (omega arith) c;
  }
  stopped j d s (some c) same p = record {
    same_disk = same;
    found = λ c' h.
        subst
          (Lowest (entry fs d (active_fat fs)) (j * (fs.fat.bpb.bytes_per_sector / 4))
            fs.max_cluster)
          (some-injective _ _ h) p;
    full = λ ok h. cc;
  }

  went_on :
      (j : ℕ) (d : ℕ → ℕ) (r : Option ℕ × S)
      → AllUsed
          (entry fs d (active_fat fs))
          (j * (fs.fat.bpb.bytes_per_sector / 4))
          (suc j * (fs.fat.bpb.bytes_per_sector / 4))
      → Found d (suc j) r
      → Found d j r
  went_on j d r used p =
      let n = fs.fat.bpb.bytes_per_sector / 4 in
      let value = entry fs d (active_fat fs) in
      record {
        same_disk = p.same_disk;
        found = λ c h. lower value (j * n) (suc j * n) c (before j n) used (p.found c h);
        full = λ ok h top a b. used_both value (j * n) (suc j * n) top used (p.full ok h top a b);
      }

  find_from_lem :
      (n j : ℕ) (s : S) (d : ℕ → ℕ)
      → w.disk s ≡ d
      → j + n ≡ fs.fat.bpb.ebpb.sectors_per_fat
      → Found d j (
          find_from dev fs n
            (fat_start_lba fs (active_fat fs * fs.fat.bpb.ebpb.sectors_per_fat))
            j
            s)
  unfolding find_from
  find_from_lem zero j s d same e = record {
    same_disk = same;
    found = λ c h. cc;
    full = λ ok h top a b k lo hi c.
        let all : j ≡ fs.fat.bpb.ebpb.sectors_per_fat = omega arith in
        let here = ap (λ z. z * (fs.fat.bpb.bytes_per_sector / 4)) all in absurd (omega arith);
  }
  find_from_lem (suc n) j s d same e =
      let l = fat_start_lba fs (active_fat fs * fs.fat.bpb.ebpb.sectors_per_fat) in
      let s' = (dev.read_one (add64 l j) s).1 in
      let kept = w.one_keeps (add64 l j) s ∙ same in
      let per = fs.fat.bpb.bytes_per_sector / 4 in
      let lt : j < fs.fat.bpb.ebpb.sectors_per_fat = omega arith in
      elim (Option-cases (dev.read_one (add64 l j) s).0) [
        | inl failed ↦ subst (Found d j) (sym (find_from-failed n l j s failed)) (record {
          same_disk = kept;
          found = λ c h. cc;
          full = λ ok. absurd (unreadable (ok (add64 l j) s) failed);
        })
        | inr (b, got) ↦
            let p = sector-Scanned j s b d same lt got in
            elim (Option-cases (scan_sector per 0 (j * per) fs.max_cluster b)) [
              | inl on ↦ subst (Found d j) (sym (find_from-through n l j s b got on)) (
                  went_on j d (find_from dev fs n l (suc j) s')
                    (subst
                      (Scanned (entry fs d (active_fat fs)) (j * per) (suc j * per) fs.max_cluster)
                      on p)
                    (find_from_lem n (suc j) s' d kept (omega arith)))
              | inr (r, left) ↦ subst (Found d j) (sym (find_from-left n l j s b r got left)) (
                  stopped j d s' r kept (
                    subst
                      (Scanned (entry fs d (active_fat fs)) (j * per) (suc j * per) fs.max_cluster)
                      left p))
            ]
      ]

room_ne : {b : Bool} → b ≡ true → b ≡ false → ⊥
room_ne h e = cc

find_free-cases :
    {S : Type 0} (dev : Device S) (fs : FileSystem) (room : Bool) (s : S)
    → ((find_free_cluster dev fs room s ≡ (none, s))
        × ((0 < fs.fat.bpb.bytes_per_sector)
            → active_fat fs < fs.fat.bpb.num_of_fats
            → room ≡ false))
      ⊎ ((active_fat fs < fs.fat.bpb.num_of_fats)
          × (find_free_cluster dev fs room s
              ≡ find_from dev fs fs.fat.bpb.ebpb.sectors_per_fat
                  (fat_start_lba fs (active_fat fs * fs.fat.bpb.ebpb.sectors_per_fat))
                  0
                  s))
unfolding find_free_cluster
find_free-cases dev fs room s = elim (Bool-cases (fs.fat.bpb.bytes_per_sector == 0)) [
  | inl zeroth ↦ inl (rw zeroth refl, λ pos. absurd (ground arith))
  | inr pos ↦ elim (Bool-cases (leb fs.fat.bpb.num_of_fats (active_fat fs))) [
    | inl bad ↦ inl (rw (pos, bad) refl, λ p few. absurd (ground arith))
    | inr few ↦ elim (Bool-cases room) [
      | inl yes_room ↦ inr (ground arith, rw (pos, few, yes_room) refl)
      | inr full ↦ inl (rw (pos, few, full) refl, λ p q. full)
    ]
  ]
]

module _ {S : Type 0} {dev : Device S} {fs : FileSystem} {sector_size : ℕ}
    (w : IsDevice dev sector_size) (v : IsVolume fs sector_size) where
  -- `find_free_cluster` leaves the disk as it is. A cluster that it gives is not below 2 and below
  -- `max_cluster` itself; its entry in the active table is free (the lower 28 bits are 0), and no
  -- lower cluster is free. If it fails although there is memory for a sector, the active table is one
  -- that the volume has and sectors can be read, then no cluster that the table has an entry for and
  -- that is below `max_cluster` is free.
  pub find_free_cluster_lem :
      (room : Bool) (s : S)
      → (w.disk (find_free_cluster dev fs room s).1 ≡ w.disk s)
        × ((c : ℕ)
            → (find_free_cluster dev fs room s).0 ≡ some c
            → Lowest (entry fs (w.disk s) (active_fat fs)) 0 fs.max_cluster c)
        × (room ≡ true
            → active_fat fs < fs.fat.bpb.num_of_fats
            → Readable dev
            → (find_free_cluster dev fs room s).0 ≡ none
            → (top : ℕ) → top ≤ fs.max_cluster
            → top ≤ fs.fat.bpb.ebpb.sectors_per_fat * (fs.fat.bpb.bytes_per_sector / 4)
            → AllUsed (entry fs (w.disk s) (active_fat fs)) 0 top)
  find_free_cluster_lem room s = elim (find_free-cases dev fs room s) [
    | inl (run, why) ↦ (
      ap (λ r. w.disk r.1) run,
      λ c h. cc,
      λ memory few ok h.
          absurd (room_ne memory (why (subst (λ z. 0 < z) (sym v.sector) v.sector_pos) few)),
    )
    | inr (few, run) ↦
        let p =
          find_from_lem w v few fs.fat.bpb.ebpb.sectors_per_fat 0 s (w.disk s) refl (omega arith) in
        let first : 0 * (fs.fat.bpb.bytes_per_sector / 4) ≡ 0 = omega arith in
        (
          ap (λ r. w.disk r.1) run ∙ p.same_disk,
          λ c h.
              subst (λ z. Lowest (entry fs (w.disk s) (active_fat fs)) z fs.max_cluster c) first
                (p.found c (ap (λ r. r.0) (sym run) ∙ h)),
          λ memory few' ok h top a b.
              subst (λ z. AllUsed (entry fs (w.disk s) (active_fat fs)) z top) first
                (p.full ok (ap (λ r. r.0) (sym run) ∙ h) top a b),
        )
  ]
