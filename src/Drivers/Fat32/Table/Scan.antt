-- ===== src/Drivers/Fat32/Table/Scan.antt =====
-- The inner loop of `find_free_cluster`.
use plum_os.Prelude.{
  ℕ, zero, suc, ◌+◌, ◌*◌, ◌%◌, ◌^◌, ◌≤◌, ◌<◌, ◌≡◌, refl, sym, ap, ◌∙◌, subst, ◌≢◌, ◌⊎◌, inl, inr,
  false, Option, none, some, arith, ltb, leb, ◌==◌, Bool-cases,
}
use plum_os.Std.Memory.{Bytes}
use plum_os.Drivers.LittleEndian.{le32}
use plum_os.Drivers.Fat32.Table.{scan_sector}

-- None of the clusters from `lo` up to `hi` is free, where `value` is what the table has for each.
abbrev pub AllUsed : (ℕ → ℕ) → ℕ → ℕ → Type 0
AllUsed value lo hi = (k : ℕ) → lo ≤ k → k < hi → 2 ≤ k → value k % 268435456 ≢ 0

-- The lowest free cluster from `lo` on, below `m`.
pub record Lowest (value : ℕ → ℕ) (lo m c : ℕ) : Type 0 where
  pub from : lo ≤ c
  pub real : 2 ≤ c
  pub below : c < m
  pub free : value c % 268435456 ≡ 0
  pub lowest : AllUsed value lo c

-- What a scan from `lo` up to `hi` says.
abbrev pub Scanned : (ℕ → ℕ) → ℕ → ℕ → ℕ → Option (Option ℕ) → Type 0
Scanned value lo hi m none = AllUsed value lo hi
Scanned value lo hi m (some none) = AllUsed value lo m
Scanned value lo hi m (some (some c)) = Lowest value lo m c

lt_or_le : (i j : ℕ) → (i < j) ⊎ (j ≤ i)
lt_or_le i j = ground arith

ne_of : {a : ℕ} → (a == 0) ≡ false → a ≢ 0
ne_of h e = ground arith

lowest_or : (i j : ℕ) → i ≤ j → (j ≡ i) ⊎ (suc i ≤ j)
lowest_or i j h = ground arith

module _ (value : ℕ → ℕ) where
  used_one :
      (lo hi : ℕ)
      → (value lo % 268435456 ≢ 0) ⊎ (lo < 2)
      → AllUsed value (suc lo) hi
      → AllUsed value lo hi
  used_one lo hi h rest k a b c = elim (lowest_or lo k a) [
    | inl e ↦ elim h [
      | inl ne ↦ (λ z. ne (ap (λ t. value t % 268435456) (sym e) ∙ z))
      | inr lt ↦ absurd (omega arith)
    ]
    | inr more ↦ rest k more b c
  ]

  Scanned-one :
      (lo hi m : ℕ) (r : Option (Option ℕ))
      → (value lo % 268435456 ≢ 0) ⊎ (lo < 2)
      → Scanned value (suc lo) hi m r
      → Scanned value lo hi m r
  Scanned-one lo hi m none h p = used_one lo hi h p
  Scanned-one lo hi m (some none) h p = used_one lo m h p
  Scanned-one lo hi m (some (some c)) h p = record {
    from = omega (arith, p.from);
    real = p.real;
    below = p.below;
    free = p.free;
    lowest = used_one lo c h p.lowest;
  }

  -- One round of the inner loop.
  scan_round :
      (n i first m : ℕ) (sector : Bytes)
      → first + i < 2 ^ 32
      → le32 sector (i * 4) ≡ value (first + i)
      → Scanned value (suc (first + i)) (first + i + suc n) m (scan_sector n (suc i) first m sector)
      → Scanned value (first + i) (first + i + suc n) m (scan_sector (suc n) i first m sector)
  unfolding scan_sector
  scan_round n i first m sector h here later =
      let index : (first + i) % 2 ^ 32 ≡ first + i = omega arith in
      let P = Scanned value (first + i) (first + i + suc n) m in
      let rest = scan_sector n (suc i) first m sector in
      elim (Bool-cases (ltb (first + i) 2)) [
        | inl low ↦
            let run : scan_sector (suc n) i first m sector ≡ rest = rw (index, low) refl in
            let less : first + i < 2 = ground arith in
            subst P (sym run) (Scanned-one (first + i) (first + i + suc n) m rest (inr less) later)
        | inr real ↦ elim (Bool-cases (leb m (first + i))) [
          | inl past ↦
              let run : scan_sector (suc n) i first m sector ≡ some none =
                rw (index, real, past) refl in
              let more : m ≤ first + i = ground arith in
              subst P (sym run) (λ k a b c. absurd (omega arith))
          | inr in_range ↦ elim (Bool-cases (value (first + i) % 268435456 == 0)) [
            | inl free ↦
                let run : scan_sector (suc n) i first m sector ≡ some (some (first + i)) =
                  rw (index, real, in_range, here, free) refl in
                subst P (sym run) (record {
                  from = omega arith;
                  real = ground arith;
                  below = ground arith;
                  free = ground arith;
                  lowest = λ k a b c. absurd (omega arith);
                })
            | inr used ↦
                let run : scan_sector (suc n) i first m sector ≡ rest =
                  rw (index, real, in_range, here, used) refl in
                subst P (sym run)
                  (Scanned-one (first + i) (first + i + suc n) m rest (inl (ne_of used)) later)
          ]
        ]
      ]

  -- The inner loop, over a sector with the entries of the clusters from `first` on.
  pub scan_sector_lem :
      (n i first m : ℕ) (sector : Bytes)
      → first + i + n ≤ 2 ^ 32
      → ((k : ℕ) → i ≤ k → k < i + n → le32 sector (k * 4) ≡ value (first + k))
      → Scanned value (first + i) (first + i + n) m (scan_sector n i first m sector)
  unfolding scan_sector
  scan_sector_lem zero i first m sector h read = λ k a b c. absurd (omega arith)
  scan_sector_lem (suc n) i first m sector h read =
      let here = read i (omega arith) (omega arith) in
      let a1 : first + suc i ≡ suc (first + i) = omega arith in
      let a2 : first + suc i + n ≡ first + i + suc n = omega arith in
      let rest = scan_sector n (suc i) first m sector in
      let later =
        scan_sector_lem n (suc i) first m sector (omega arith)
          (λ k a b. read k (omega arith) (omega arith)) in
      scan_round n i first m sector (omega arith) here (
        subst (λ z. Scanned value (suc (first + i)) z m rest) a2
          (subst (λ z. Scanned value z (first + suc i + n) m rest) a1 later))

  -- Two scans, one after the other.
  pub used_both :
      (lo mid hi : ℕ) → AllUsed value lo mid → AllUsed value mid hi → AllUsed value lo hi
  used_both lo mid hi p q k a b c = elim (lt_or_le k mid) [
    | inl lt ↦ p k a lt c
    | inr le ↦ q k le b c
  ]
