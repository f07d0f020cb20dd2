-- ===== src/Drivers/Fat32/File/Change.antt =====
-- src/Drivers/fs/FAT32/FAT32File.cpp: `write` and `truncate`. The conventions are those of the parent.
use plum_os.Prelude.{
  ℕ, zero, suc, ◌+◌, ◌-◌, ◌/◌, ◌%◌, ◌^◌, Bool, true, false, Option, none, some, ltb, ◌==◌,
  if◌then◌else◌, add64,
}
use plum_os.Std.Memory.{Bytes}
use plum_os.Drivers.Disk.Device.{Device}
use plum_os.Drivers.Fat32.{FileSystem, calculate_lba}
use plum_os.Drivers.Fat32.Table.{get_next_cluster}
use plum_os.Drivers.Fat32.File.{File, partial, walk, update_file_entry}

-- How the loop of `write` ends: early with a result and what the position goes on by, or with all
-- bytes written.
pub data Written : Type 0 where
  early : Option ℕ → ℕ → Written
  all_written : ℕ → Written

module _ {S : Type 0} (dev : Device S) (fs : FileSystem) where
  unfoldable pub write_loop : ℕ → ℕ → ℕ → ℕ → ℕ → ℕ → Bytes → S → Option (Written × S)
  write_loop zero cluster_size size written offset_in_cluster cluster buffer s = none
  write_loop (suc fuel) cluster_size size written offset_in_cluster cluster buffer s =
      let available = cluster_size - offset_in_cluster in
      let left = size - written in
      let chunk = if ltb left available then left else available in
      let (done, s') =
        dev.write_at (calculate_lba fs cluster) (offset_in_cluster % 2 ^ 32) (chunk % 2 ^ 32)
          (λ x. buffer (written + x)) s in
      elim done [
        | false ↦ some (early (partial written) written, s')
        | true ↦
            let written' = written + chunk in
            let (link, s'') = get_next_cluster dev fs cluster s' in
            if ltb written' size
            then elim link [
              | none ↦ some (early (partial written') written', s'')
              | some next ↦
                  let rest = write_loop fuel cluster_size size written' 0 next buffer s'' in
                  if next == 0 then some (early none 0, s'') else rest
            ]
            else some (all_written written', s')
      ]

  -- Past the end of the file the new size is written to the directory; whether that goes through is
  -- not looked at.
  unfoldable pub grow : File → S → File × S
  grow f s =
      let f' = record f { file = record f.file { file_size = f.position % 2 ^ 32 } } in
      if ltb f.file.file_size f.position then (f', (update_file_entry dev fs f' s).1) else (f, s)

  unfoldable pub written_out : File → ℕ → Option (Written × S) → Option (Option ℕ × File × S)
  unfolding grow
  written_out f size none = none
  written_out f size (some (early r n, s)) = some (r, record f { position = add64 f.position n }, s)
  written_out f size (some (all_written n, s)) =
      let (f', s') = grow (record f { position = add64 f.position n }) s in some (some size, f', s')

  unfoldable pub write_walked : File → Bytes → ℕ → Option ℕ × S → Option (Option ℕ × File × S)
  unfolding written_out
  write_walked f buffer size (none, s) = some (none, f, s)
  write_walked f buffer size (some cluster, s) =
      written_out f size
        (write_loop (size + 1) f.cluster_size size 0 (f.position % f.cluster_size) cluster buffer s)

  unfoldable pub write : File → Bytes → ℕ → S → Option (Option ℕ × File × S)
  unfolding write_walked
  write f buffer size s =
      if size == 0
      then some (some 0, f, s)
      else write_walked f buffer size (walk dev fs (f.position / f.cluster_size) f.first_cluster s)

  -- What `update_file_entry` says of the new size.
  unfoldable pub truncated : File → File → Bool × S → Option ℕ × File × S
  truncated old new (true, s) = (some 0, new, s)
  truncated old new (false, s) = (none, old, s)

  unfoldable pub truncate : File → ℕ → S → Option ℕ × File × S
  unfolding truncated
  truncate f lenght s =
      if ltb f.cluster_size lenght
      then (none, f, s)
      else let f' = record f { file = record f.file { file_size = lenght % 2 ^ 32 } } in
        truncated f f' (update_file_entry dev fs f' s)
