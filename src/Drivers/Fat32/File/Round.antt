-- ===== src/Drivers/Fat32/File/Round.antt =====
-- Reads of whole clusters, and the ways in which a round of the loop of `read` can go.
use native.Mathlib.Nat.{mul-le-mul, mod-le, div-eq_of_lt}
use plum_os.Prelude.{
  ℕ, suc, ◌+◌, ◌-◌, ◌*◌, ◌/◌, ◌%◌, ◌^◌, ◌≤◌, ◌<◌, ◌≡◌, refl, sym, ap, ◌∙◌, subst, inl, inr, true,
  false, Option, none, some, arith, ltb, leb, ◌==◌, ltb→lt, Bool-cases, Option-cases, word,
}
use plum_os.Std.Memory.{Bytes}
use plum_os.Drivers.Disk.{splice}
use plum_os.Drivers.Disk.Read.{chunk_of}
use plum_os.Drivers.Disk.Device.{Device, IsDevice}
use plum_os.Drivers.Fat32.{FileSystem, lba_of, calculate_lba}
use plum_os.Drivers.Fat32.Table.{get_next_cluster}
use plum_os.Drivers.Fat32.Table.Entries.{IsVolume}
use plum_os.Drivers.Fat32.File.{partial, read_loop}

module _ {fs : FileSystem} {sector_size : ℕ} (v : IsVolume fs sector_size) where
  pub cluster_small : (0 < fs.cluster_size) × (fs.cluster_size < 2 ^ 24)
  cluster_small =
      let least = mul-le-mul v.sector_pos v.cluster_pos in
      let few : fs.fat.bpb.sectors_per_cluster ≤ 255 = omega (arith, v.cluster_u8) in
      let short : sector_size ≤ 65535 =
        subst (λ z. z ≤ 65535) v.sector (omega (arith, v.sector_u16)) in
      let most = mul-le-mul short few in
      (
        subst (λ z. 0 < z) (sym v.cluster) (omega arith),
        subst (λ z. z < 2 ^ 24) (sym v.cluster) (omega arith),
      )

  pub lba_small : (c : ℕ) → calculate_lba fs c < 2 ^ 41
  unfolding calculate_lba lba_of
  lba_small c =
      let few : c % 2 ^ 32 - 2 ≤ 2 ^ 32 = omega arith in
      let short : fs.fat.bpb.sectors_per_cluster ≤ 255 = omega (arith, v.cluster_u8) in
      let most = mul-le-mul few short in
      let small =
        mod-le (fs.fat.data_start + (c % 2 ^ 32 - 2) * fs.fat.bpb.sectors_per_cluster) word in
      elim (Bool-cases (leb 2 (c % 2 ^ 32))) [
        | inl real ↦ rw real (omega (arith, v.start_u32))
        | inr unreal ↦ rw unreal (omega arith)
      ]

module _ {S : Type 0} {dev : Device S} {fs : FileSystem} {sector_size : ℕ}
    (w : IsDevice dev sector_size) (v : IsVolume fs sector_size) where
  abbrev pub cluster_read : ℕ → S → Option Bytes × S
  cluster_read c s = dev.read_at (calculate_lba fs c) 0 (fs.cluster_size % 2 ^ 32) s

  cluster_bound : (c : ℕ) → calculate_lba fs c + 0 / sector_size + fs.cluster_size % 2 ^ 32 < word
  cluster_bound c = omega (arith, lba_small v c, cluster_small v, div-eq_of_lt w.sized)

  pub cluster_read_lem :
      (c i : ℕ) (s : S) {temp : Bytes} (d : ℕ → ℕ)
      → w.disk s ≡ d
      → (cluster_read c s).0 ≡ some temp
      → i < fs.cluster_size
      → temp i ≡ d (calculate_lba fs c * sector_size + i)
  cluster_read_lem c i s {temp} d same e lt =
      let (pos, small) = cluster_small v in
      let none_skipped : calculate_lba fs c * sector_size + 0 + i
          ≡ calculate_lba fs c * sector_size + i =
        omega arith in
      w.read_gives (calculate_lba fs c) 0 (fs.cluster_size % 2 ^ 32) s temp i (cluster_bound c) e
        (omega arith)
      ∙ ap (λ f. f (calculate_lba fs c * sector_size + 0 + i)) same
      ∙ ap d none_skipped

  pub cluster_read_keeps : (c : ℕ) (s : S) → w.disk (cluster_read c s).1 ≡ w.disk s
  cluster_read_keeps c s =
      w.read_keeps (calculate_lba fs c) 0 (fs.cluster_size % 2 ^ 32) s (cluster_bound c)

  abbrev pub chunk : ℕ → ℕ → ℕ → ℕ
  chunk wanted copied o = chunk_of (wanted - copied) (fs.cluster_size - o)

  -- How a round goes.
  pub data Round (fuel wanted copied o c : ℕ) (buffer : Bytes) (s : S) : Type 0 where
    unread :
        (cluster_read c s).0 ≡ none
        → read_loop dev fs (suc fuel) fs.cluster_size wanted copied o c buffer s
          ≡ some (record {
            returned = partial copied;
            moved = copied;
            buffer = buffer;
            state = (cluster_read c s).1;
          })
        → Round fuel wanted copied o c buffer s
    complete :
        (temp : Bytes)
        → (cluster_read c s).0 ≡ some temp
        → wanted ≤ copied + chunk wanted copied o
        → read_loop dev fs (suc fuel) fs.cluster_size wanted copied o c buffer s
          ≡ some (record {
            returned = some (copied + chunk wanted copied o);
            moved = copied + chunk wanted copied o;
            buffer = splice buffer copied temp o (chunk wanted copied o);
            state = (cluster_read c s).1;
          })
        → Round fuel wanted copied o c buffer s
    broken :
        (temp : Bytes)
        → (cluster_read c s).0 ≡ some temp
        → copied + chunk wanted copied o < wanted
        → (get_next_cluster dev fs c (cluster_read c s).1).0 ≡ none
        → read_loop dev fs (suc fuel) fs.cluster_size wanted copied o c buffer s
          ≡ some (record {
            returned = partial (copied + chunk wanted copied o);
            moved = copied + chunk wanted copied o;
            buffer = splice buffer copied temp o (chunk wanted copied o);
            state = (get_next_cluster dev fs c (cluster_read c s).1).1;
          })
        → Round fuel wanted copied o c buffer s
    chain_end :
        (temp : Bytes) (k : ℕ)
        → (cluster_read c s).0 ≡ some temp
        → copied + chunk wanted copied o < wanted
        → (get_next_cluster dev fs c (cluster_read c s).1).0 ≡ some k
        → (k == 0) ≡ true
        → read_loop dev fs (suc fuel) fs.cluster_size wanted copied o c buffer s
          ≡ some (record {
            returned = none;
            moved = 0;
            buffer = splice buffer copied temp o (chunk wanted copied o);
            state = (get_next_cluster dev fs c (cluster_read c s).1).1;
          })
        → Round fuel wanted copied o c buffer s
    on :
        (temp : Bytes) (k : ℕ)
        → (cluster_read c s).0 ≡ some temp
        → copied + chunk wanted copied o < wanted
        → (get_next_cluster dev fs c (cluster_read c s).1).0 ≡ some k
        → (k == 0) ≡ false
        → read_loop dev fs (suc fuel) fs.cluster_size wanted copied o c buffer s
          ≡ read_loop dev fs fuel fs.cluster_size wanted
              (copied + chunk wanted copied o)
              0
              k
              (splice buffer copied temp o (chunk wanted copied o))
              (get_next_cluster dev fs c (cluster_read c s).1).1
        → Round fuel wanted copied o c buffer s

  pub round :
      (fuel wanted copied o c : ℕ) (buffer : Bytes) (s : S) → Round fuel wanted copied o c buffer s
  unfolding read_loop
  round fuel wanted copied o c buffer s = elim (Option-cases (cluster_read c s).0) [
    | inl e ↦ unread e (rw (e, read_loop) refl)
    | inr (temp, e) ↦ elim (Bool-cases (ltb (copied + chunk wanted copied o) wanted)) [
      | inr full ↦ complete temp e (ground arith) (rw (e, read_loop) (rw full refl))
      | inl more ↦ elim (Option-cases (get_next_cluster dev fs c (cluster_read c s).1).0) [
        | inl q ↦ broken temp e (ltb→lt _ _ more) q (rw (e, read_loop) (rw (more, q) refl))
        | inr (k, q) ↦ elim (Bool-cases (k == 0)) [
          | inl last ↦
              chain_end temp k e (ltb→lt _ _ more) q last
                (rw (e, read_loop) (rw (more, q, last) refl))
          | inr next ↦
              on temp k e (ltb→lt _ _ more) q next (rw (e, read_loop) (rw (more, q, next) refl))
        ]
      ]
    ]
  ]
