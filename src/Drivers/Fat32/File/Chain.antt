-- ===== src/Drivers/Fat32/File/Chain.antt =====
-- The clusters of a file and its bytes, as the disk has them, and the walk along the chain.
use plum_os.Prelude.{
  ℕ, zero, suc, ◌+◌, ◌*◌, ◌/◌, ◌%◌, ◌<◌, ◌≡◌, refl, sym, ap, ◌∙◌, ◌⊎◌, inl, inr, false, Option,
  none, some, arith, ◌==◌, if◌then◌else◌, Bool-cases, Option-cases, block_of,
}
use plum_os.Drivers.Disk.Device.{Device, IsDevice}
use plum_os.Drivers.Fat32.{FileSystem, calculate_lba}
use plum_os.Drivers.Fat32.Table.{get_next_cluster}
use plum_os.Drivers.Fat32.Table.Entries.{IsVolume}
use plum_os.Drivers.Fat32.Table.Get.{next_cluster, get_next-keeps, get_next-gives}
use plum_os.Drivers.Fat32.File.{walk}

-- The link, where the chain goes on.
abbrev pub going_on : Option ℕ → Option ℕ
going_on none = none
going_on (some n) = if n == 0 then none else some n

abbrev pub follow : FileSystem → (ℕ → ℕ) → Option ℕ → Option ℕ
follow fs d none = none
follow fs d (some c) = going_on (next_cluster fs d c)

-- Cluster `m` of the chain that begins with `first`.
abbrev pub cluster_at : FileSystem → (ℕ → ℕ) → ℕ → ℕ → Option ℕ
cluster_at fs d first zero = some first
cluster_at fs d first (suc m) = follow fs d (cluster_at fs d first m)

-- Byte `p` of the file whose chain begins with `first` is `x`.
abbrev pub IsByte : FileSystem → (ℕ → ℕ) → ℕ → ℕ → ℕ → ℕ → Type 0
IsByte fs d sector_size first p x =
    (c : ℕ) × (cluster_at fs d first (p / fs.cluster_size) ≡ some c)
    × (x ≡ d (calculate_lba fs c * sector_size + p % fs.cluster_size))

pub cluster_at-next :
    (fs : FileSystem) (d : ℕ → ℕ) (first m c n : ℕ)
    → cluster_at fs d first m ≡ some c
    → next_cluster fs d c ≡ some n
    → (n == 0) ≡ false
    → cluster_at fs d first (suc m) ≡ some n
cluster_at-next fs d first m c n at link ne = ap (follow fs d) at ∙ ap going_on link ∙ rw ne refl

none_ne : {A : Type 0} {a : A} → none ≡ some a → ⊥
none_ne h = cc

-- A place in a cluster.
pub IsByte-in_cluster :
    (fs : FileSystem) (d : ℕ → ℕ) (sector_size first m c o x p : ℕ)
    → cluster_at fs d first m ≡ some c
    → o < fs.cluster_size
    → p ≡ m * fs.cluster_size + o
    → x ≡ d (calculate_lba fs c * sector_size + o)
    → IsByte fs d sector_size first p x
IsByte-in_cluster fs d sector_size first m c o x p at lt e h =
    let (q, r) = block_of fs.cluster_size m o lt in
    let here = ap (λ z. z / fs.cluster_size) e ∙ q in
    let rest = ap (λ z. z % fs.cluster_size) e ∙ r in
    (
      c,
      ap (cluster_at fs d first) here ∙ at,
      h ∙ ap (λ z. d (calculate_lba fs c * sector_size + z)) (sym rest),
    )

module _ {S : Type 0} {dev : Device S} {fs : FileSystem} {sector_size : ℕ}
    (w : IsDevice dev sector_size) (v : IsVolume fs sector_size) where
  -- A round of the walk: it ends with nothing, or goes on with the cluster that follows.
  walk-cases :
      (n c : ℕ) (s : S)
      → (walk dev fs (suc n) c s ≡ (none, (get_next_cluster dev fs c s).1))
        ⊎ ((k : ℕ) × ((get_next_cluster dev fs c s).0 ≡ some k)
            × ((k == 0) ≡ false)
            × (walk dev fs (suc n) c s ≡ walk dev fs n k (get_next_cluster dev fs c s).1))
  unfolding walk
  walk-cases n c s = elim (Option-cases (get_next_cluster dev fs c s).0) [
    | inl e ↦ inl (rw (e, walk) refl)
    | inr (k, e) ↦ elim (Bool-cases (k == 0)) [
      | inl last ↦ inl (rw (e, walk) (rw last refl))
      | inr more ↦ inr (k, e, more, rw (e, walk) (rw more refl))
    ]
  ]

  pub walk-keeps : (n c : ℕ) (s : S) → w.disk (walk dev fs n c s).1 ≡ w.disk s
  unfolding walk
  walk-keeps zero c s = refl
  walk-keeps (suc n) c s = elim (walk-cases n c s) [
    | inl e ↦ ap (λ r. w.disk r.1) e ∙ get_next-keeps w v c s
    | inr (k, got, more, e) ↦
        ap (λ r. w.disk r.1) e
        ∙ walk-keeps n k (get_next_cluster dev fs c s).1
        ∙ get_next-keeps w v c s
  ]

  pub walk-gives :
      (n m c first : ℕ) (s : S) (k : ℕ) (d : ℕ → ℕ)
      → w.disk s ≡ d
      → cluster_at fs d first m ≡ some c
      → (walk dev fs n c s).0 ≡ some k
      → cluster_at fs d first (m + n) ≡ some k
  unfolding walk
  walk-gives zero m c first s k d same at h =
      let here : m + 0 ≡ m = omega arith in ap (cluster_at fs d first) here ∙ at ∙ h
  walk-gives (suc n) m c first s k d same at h = elim (walk-cases n c s) [
    | inl e ↦ absurd (none_ne (ap (λ r. r.0) (sym e) ∙ h))
    | inr (j, got, more, e) ↦
        let link = ap (λ z. next_cluster fs z c) (sym same) ∙ get_next-gives w v c s j got in
        let on : m + suc n ≡ suc m + n = omega arith in
        ap (cluster_at fs d first) on
        ∙ walk-gives n (suc m) j first (get_next_cluster dev fs c s).1 k d
            (get_next-keeps w v c s ∙ same) (cluster_at-next fs d first m c j at link more)
            (ap (λ r. r.0) (sym e) ∙ h)
  ]
