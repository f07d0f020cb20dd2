-- ===== src/Drivers/Fat32/File/Empty.antt =====
-- What `write` does to a file that has no cluster, and `truncate` to the directory.
use native.Mathlib.Nat.{div-eq_of_lt, mod-eq_of_lt, div-le_self}
use mathlib.Core.Path.{fun_ext}
use plum_os.Prelude.{
  ℕ, suc, ◌+◌, ◌-◌, ◌*◌, ◌/◌, ◌%◌, ◌^◌, ◌≤◌, ◌<◌, ◌≡◌, refl, sym, ap, ◌∙◌, subst, inl, inr, Bool,
  true, false, Option, none, some, arith, ltb, ◌==◌, if◌then◌else◌, Bool-cases, word, add64,
}
use plum_os.Std.Memory.{Bytes}
use plum_os.Drivers.LittleEndian.{buffer_of}
use plum_os.Drivers.Disk.Device.{Device, IsDevice}
use plum_os.Drivers.Fat32.{FileSystem, lba_of, calculate_lba}
use plum_os.Drivers.Fat32.Table.Entries.{IsVolume}
use plum_os.Drivers.Fat32.File.{File, walk, update_file_entry, entry_bytes}
use plum_os.Drivers.Fat32.File.Round.{cluster_small}
use plum_os.Drivers.Fat32.File.Change.{
  all_written, write_loop, written_out, write_walked, grow, write, truncated, truncate,
}

module _ {S : Type 0} {dev : Device S} {fs : FileSystem} {sector_size : ℕ}
    (w : IsDevice dev sector_size) (v : IsVolume fs sector_size) where
  -- The round of a write that stays in cluster 0.
  first_round :
      (fuel size o : ℕ) (buffer : Bytes) (s : S)
      → 0 < size
      → o + size ≤ fs.cluster_size
      → (dev.write_at 0 o size buffer s).0 ≡ true
      → write_loop dev fs (suc fuel) fs.cluster_size size 0 o 0 buffer s
        ≡ some (all_written (0 + size), (dev.write_at 0 o size buffer s).1)
  unfolding write_loop calculate_lba lba_of
  first_round fuel size o buffer s pos room ok =
      let b = fs.cluster_size in
      let (big, small) = cluster_small v in
      let chunk = if ltb (size - 0) (b - o) then size - 0 else b - o in
      let whole : chunk ≡ size = ground arith in
      let o32 : o % 2 ^ 32 ≡ o = omega arith in
      let size32 : chunk % 2 ^ 32 ≡ size = omega (arith, whole) in
      let plain : (λ x. buffer (0 + x)) ≡ buffer =
        fun_ext (λ x. let z : 0 + x ≡ x = omega arith in ap buffer z) in
      let call : dev.write_at (calculate_lba fs 0) (o % 2 ^ 32) (chunk % 2 ^ 32)
            (λ x. buffer (0 + x)) s
          ≡ dev.write_at 0 o size buffer s =
        λ i. dev.write_at 0 (o32 i) (size32 i) (plain i) s in
      let done = ap (λ r. r.0) call ∙ ok in
      let all : ltb (0 + chunk) size ≡ false = ground arith in
      let run : write_loop dev fs (suc fuel) b size 0 o 0 buffer s
          ≡ some (
            all_written (0 + chunk),
            (dev.write_at (calculate_lba fs 0) (o % 2 ^ 32) (chunk % 2 ^ 32) (λ x. buffer (0 + x))
                s).1,
          ) =
        rw (done, write_loop) (rw all refl) in
      run ∙ (λ i. some (all_written (0 + whole i), (call i).1))

  -- A file with no cluster has 0 in the first cluster of its entry. If a write into it from the
  -- position on does not reach past the first cluster or the end of the file, and the device writes
  -- the bytes, then `write` returns the size, as for success, and the bytes are at the beginning of
  -- the disk, where its partition table is.
  pub write-disk_start :
      (f : File) (buffer : Bytes) (size : ℕ) (s : S)
      → f.first_cluster ≡ 0
      → f.cluster_size ≡ fs.cluster_size
      → 0 < size
      → f.position + size ≤ f.cluster_size
      → f.position + size ≤ f.file.file_size
      → (dev.write_at 0 f.position size buffer s).0 ≡ true
      → (s' : S) × (write dev fs f buffer size s
          ≡ some (some size, record f { position = f.position + size }, s'))
        × ((k : ℕ) → k < size → w.disk s' (f.position + k) ≡ buffer k)
  unfolding write write_walked written_out write_loop walk grow calculate_lba lba_of
  write-disk_start f buffer size s none_yet same pos room inside ok =
      let p = f.position in
      let (big, small) = cluster_small v in
      let before : p < f.cluster_size = omega arith in
      let first : p / f.cluster_size ≡ 0 = div-eq_of_lt before in
      let offset : p % f.cluster_size ≡ p = mod-eq_of_lt before in
      let s' = (dev.write_at 0 p size buffer s).1 in
      let at_zero : walk dev fs (p / f.cluster_size) f.first_cluster s ≡ (some 0, s) =
        ap (λ z. walk dev fs z f.first_cluster s) first ∙ ap (λ c. (some c, s)) none_yet in
      let next : size + 1 ≡ suc size = omega arith in
      let loop : write_loop dev fs (size + 1) f.cluster_size size 0 (p % f.cluster_size) 0 buffer s
          ≡ some (all_written (0 + size), s') =
        (λ i. write_loop dev fs (next i) (same i) size 0 (offset i) 0 buffer s)
        ∙ first_round size size p buffer s pos (omega arith) ok in
      let some_bytes : (size == 0) ≡ false = ground arith in
      let run : write dev fs f buffer size s
          ≡ write_walked dev fs f buffer size (walk dev fs (p / f.cluster_size) f.first_cluster s) =
        rw some_bytes refl in
      let there : add64 p (0 + size) ≡ p + size = omega arith in
      let old_size : ltb f.file.file_size (p + size) ≡ false = ground arith in
      let grown : written_out dev fs f size (some (all_written (0 + size), s'))
          ≡ some (some size, record f { position = p + size }, s') =
        rw (there, old_size) refl in
      (
        s',
        run
            ∙ ap (write_walked dev fs f buffer size) at_zero
            ∙ ap (written_out dev fs f size) loop
            ∙ grown,
        λ k lt.
            let here : 0 * sector_size + p + k ≡ p + k = omega arith in
            let o = div-le_self p sector_size in
            ap (w.disk s') (sym here) ∙ w.write_puts 0 p size buffer s k (omega arith) ok lt,
      )

  -- What `truncate` comes to.
  pub record Truncates (f : File) (lenght : ℕ) (r : Option ℕ × File × S) : Type 0 where
    pub success :
        r.0 ≡ some 0
        → (lenght ≤ fs.cluster_size)
          × (r.1 ≡ record f { file = record f.file { file_size = lenght } })
          × ((k : ℕ)
              → k < 32
              → w.disk r.2 (f.directory_entry_lba * sector_size + f.directory_entry_offset + k)
                ≡ buffer_of (entry_bytes r.1.file) k)
    pub failure : r.0 ≡ none → r.1 ≡ f

  updated :
      (f new : File) (lenght : ℕ) (u : Bool × S)
      → lenght ≤ fs.cluster_size
      → new ≡ record f { file = record f.file { file_size = lenght } }
      → (u.0 ≡ true
          → (k : ℕ) → k < 32
          → w.disk u.1 (f.directory_entry_lba * sector_size + f.directory_entry_offset + k)
            ≡ buffer_of (entry_bytes new.file) k)
      → Truncates f lenght (truncated dev fs f new u)
  unfolding truncated
  updated f new lenght (true, s) le e there = record {
    success = λ h. (le, e, there refl);
    failure = λ h. cc;
  }
  updated f new lenght (false, s) le e there = record { success = λ h. cc; failure = λ h. refl }

  -- For a file with the cluster size of the volume, whose directory entry lies in sectors that have a
  -- number: if `truncate` returns 0, then the new size is not above the size of a cluster, it is the one in
  -- the file, and the 32 bytes of the directory entry on the disk are those of the entry with the new
  -- size. If it returns -1, then the file is as it was.
  pub truncate_lem :
      (f : File) (lenght : ℕ) (s : S)
      → f.cluster_size ≡ fs.cluster_size
      → f.directory_entry_offset < 2 ^ 32
      → f.directory_entry_lba + f.directory_entry_offset / sector_size + 32 < word
      → Truncates f lenght (truncate dev fs f lenght s)
  unfolding truncate update_file_entry
  truncate_lem f lenght s same off bound = elim (Bool-cases (ltb f.cluster_size lenght)) [
    | inl past ↦
        let run : truncate dev fs f lenght s ≡ (none, f, s) = rw past refl in
        subst (Truncates f lenght) (sym run) (record { success = λ h. cc; failure = λ h. refl })
    | inr fits ↦
        let (big, small) = cluster_small v in
        let le : lenght ≤ fs.cluster_size = ground arith in
        let f' = record f { file = record f.file { file_size = lenght % 2 ^ 32 } } in
        let u = update_file_entry dev fs f' s in
        let run : truncate dev fs f lenght s ≡ truncated dev fs f f' u = rw fits refl in
        let short : lenght % 2 ^ 32 ≡ lenght = omega arith in
        let plain : f.directory_entry_offset % 2 ^ 32 ≡ f.directory_entry_offset = omega arith in
        let call : u
            ≡ dev.write_at f.directory_entry_lba f.directory_entry_offset 32
                (buffer_of (entry_bytes f'.file)) s =
          ap (λ o. dev.write_at f.directory_entry_lba o 32 (buffer_of (entry_bytes f'.file)) s)
            plain in
        subst (Truncates f lenght) (sym run) (
          updated f f' lenght u le (λ i. record f { file = record f.file { file_size = short i } })
            (λ ok k lt.
              ap
                (λ r.
                  w.disk r.1 (f.directory_entry_lba * sector_size + f.directory_entry_offset + k))
                call
              ∙ w.write_puts f.directory_entry_lba f.directory_entry_offset 32
                  (buffer_of (entry_bytes f'.file)) s k bound (ap (λ r. r.0) (sym call) ∙ ok) lt))
  ]
