-- ===== src/Drivers/Fat32/File/Ends.antt =====
-- `write` ends.
use native.Mathlib.Nat.{mod-lt}
use plum_os.Prelude.{
  ℕ, zero, suc, ◌+◌, ◌-◌, ◌/◌, ◌%◌, ◌^◌, ◌<◌, ◌≡◌, refl, ap, ◌∙◌, inl, inr, Bool, Option, none,
  some, arith, ltb, ◌==◌, ltb→lt, Bool-cases, Option-cases, add64,
}
use plum_os.Std.Memory.{Bytes}
use plum_os.Drivers.Disk.Read.{chunk_of}
use plum_os.Drivers.Disk.Device.{Device}
use plum_os.Drivers.Fat32.{FileSystem, calculate_lba}
use plum_os.Drivers.Fat32.Table.{get_next_cluster}
use plum_os.Drivers.Fat32.File.{File, partial, walk}
use plum_os.Drivers.Fat32.File.Change.{
  Written, early, all_written, grow, write_loop, written_out, write_walked, write,
}

chunk_pos : (size written b o : ℕ) → o < b → written < size → 0 < chunk_of (size - written) (b - o)
chunk_pos size written b o h k = ground arith

module _ {S : Type 0} (dev : Device S) (fs : FileSystem) where
  abbrev chunk_written : ℕ → ℕ → ℕ → ℕ → ℕ → Bytes → S → Bool × S
  chunk_written b size written o c buffer s =
      dev.write_at (calculate_lba fs c) (o % 2 ^ 32) (chunk_of (size - written) (b - o) % 2 ^ 32)
        (λ x. buffer (written + x)) s

  write_loop_ends :
      (fuel b size written o c : ℕ) (buffer : Bytes) (s : S)
      → o < b
      → written < size
      → size < written + fuel
      → (r : Written × S) × (write_loop dev fs fuel b size written o c buffer s ≡ some r)
  unfolding write_loop
  write_loop_ends zero b size written o c buffer s h more left = absurd (omega arith)
  write_loop_ends (suc fuel) b size written o c buffer s h more left =
      let ch = chunk_of (size - written) (b - o) in
      let some_bytes = chunk_pos size written b o h more in
      let s' = (chunk_written b size written o c buffer s).1 in
      elim (Bool-cases (chunk_written b size written o c buffer s).0) [
        | inr bad ↦ ((early (partial written) written, s'), rw (bad, write_loop) refl)
        | inl good ↦ elim (Bool-cases (ltb (written + ch) size)) [
          | inr all ↦ ((all_written (written + ch), s'), rw (good, write_loop) (rw all refl))
          | inl less ↦ elim (Option-cases (get_next_cluster dev fs c s').0) [
            | inl none_left ↦ (
              (early (partial (written + ch)) (written + ch), (get_next_cluster dev fs c s').1),
              rw (good, write_loop) (rw (less, none_left) refl),
            )
            | inr (k, link) ↦ elim (Bool-cases (k == 0)) [
              | inl end ↦ (
                (early none 0, (get_next_cluster dev fs c s').1),
                rw (good, write_loop) (rw (less, link, end) refl),
              )
              | inr on ↦
                  let (r, run) =
                    write_loop_ends fuel b size (written + ch) 0 k buffer
                      (get_next_cluster dev fs c s').1 (omega arith) (ltb→lt _ _ less)
                      (omega arith) in
                  (r, rw (good, write_loop) (rw (less, link, on) run))
            ]
          ]
        ]
      ]

  out_ends :
      (f : File) (size : ℕ) (r : Written × S)
      → (q : Option ℕ × File × S) × (written_out dev fs f size (some r) ≡ some q)
  unfolding written_out
  out_ends f size (early r n, s) = ((r, record f { position = add64 f.position n }, s), refl)
  out_ends f size (all_written n, s) =
      let g = grow dev fs (record f { position = add64 f.position n }) s in
      ((some size, g.0, g.1), refl)

  walked_ends :
      (f : File) (buffer : Bytes) (size : ℕ) (r : Option ℕ × S)
      → 0 < f.cluster_size
      → 0 < size
      → (q : Option ℕ × File × S) × (write_walked dev fs f buffer size r ≡ some q)
  unfolding write_walked
  walked_ends f buffer size (none, s) pos more = ((none, f, s), refl)
  walked_ends f buffer size (some c, s) pos more =
      let (r, run) =
        write_loop_ends (size + 1) f.cluster_size size 0 (f.position % f.cluster_size) c buffer s
          (mod-lt f.position pos) more (omega arith) in
      let (q, out) = out_ends f size r in (q, ap (written_out dev fs f size) run ∙ out)

  -- `write` returns, with the fuel that it has, for any file with a cluster size that is not 0.
  write_ends :
      (f : File) (buffer : Bytes) (size : ℕ) (s : S)
      → 0 < f.cluster_size
      → (q : Option ℕ × File × S) × (write dev fs f buffer size s ≡ some q)
  unfolding write
  write_ends f buffer size s pos = elim (Bool-cases (size == 0)) [
    | inl zeroth ↦ ((some 0, f, s), rw zeroth refl)
    | inr more ↦
        let some_bytes : 0 < size = ground arith in
        let (q, run) =
          walked_ends f buffer size (walk dev fs (f.position / f.cluster_size) f.first_cluster s)
            pos some_bytes in
        (q, rw more run)
  ]
