-- ===== src/Drivers/Fat32/File/Tests.antt =====
-- Calls on the file of the small volume: it begins in cluster 3 and has 600 bytes.
use plum_os.Prelude.{
  ℕ, zero, suc, ◌+◌, ◌-◌, ◌≤◌, ◌<◌, min, ◌≡◌, refl, ap, ◌≢◌, inr, true, Option, none, some, arith,
}
use plum_os.Prelude.Int.{pos, negsuc, ◌+ℤ◌}
use plum_os.Std.Memory.{Bytes}
use plum_os.Drivers.Disk.{read_bytes, write_bytes, read_loop, write_loop, write_chunk}
use plum_os.Drivers.Disk.Device.{fetched, finished}
use plum_os.Drivers.Disk.Ram.{Sectors, ram, ram-IsDevice, ram-Works}
use plum_os.Drivers.Fat32.{mount}
use plum_os.Drivers.Fat32.Table.{active_fat, fat_start_lba, link_of, next_from, get_next_cluster}
use plum_os.Drivers.Fat32.Table.Get.{get_next-gives}
use plum_os.Drivers.Fat32.Example.{volume, volume-IsVolume, image, small_file, small_entry}
use plum_os.Drivers.Fat32.File.{File, Transfer, read, seek}
use plum_os.Drivers.Fat32.File.Chain.{going_on}
use plum_os.Drivers.Fat32.File.Read.{ReadsFile, read_lem}
use plum_os.Drivers.Fat32.File.Complete.{Reaches, InVolume, read_complete}
use plum_os.Drivers.Fat32.File.Seek.{seek_lem}
use plum_os.Drivers.Fat32.File.Change.{write, truncate}
use plum_os.Drivers.Fat32.File.Empty.{Truncates, write-disk_start, truncate_lem}

abbrev blank : Bytes
blank = λ x. 0

volume_cluster : 512 ≡ volume.cluster_size
unfolding mount
volume_cluster = refl

read_lem_example :
    (t : Transfer Sectors) × (read ram volume true small_file blank 100 image
      ≡ some (t.returned, record small_file { position = 500 + t.moved }, t.buffer, t.state))
    × ReadsFile ram-IsDevice volume-IsVolume small_file blank 100 image t
read_lem_example =
    read_lem ram-IsDevice volume-IsVolume true small_file blank 100 image volume_cluster
      (omega arith) (omega arith)

second_cluster : (get_next_cluster ram volume 3 image).0 ≡ some 4
unfolding get_next_cluster next_from fat_start_lba link_of ram read_bytes read_loop fetched mount
second_cluster = refl

chain : Reaches volume (ram-IsDevice.disk image) 3 600
unfolding mount
chain zero h = (3, refl)
chain (suc zero) h =
    (4, ap going_on (get_next-gives ram-IsDevice volume-IsVolume 3 image 4 second_cluster))
chain (suc (suc m)) h = absurd (omega arith)

active : active_fat volume < volume.fat.bpb.num_of_fats
unfolding mount
active = omega arith

third : InVolume volume 3
unfolding mount
third = (omega arith, omega arith)

read_complete_example :
    (r : Option ℕ × File × Bytes × Sectors) × (read ram volume true small_file blank 1000 image
      ≡ some r)
    × (r.0 ≡ some (min 1000 (600 - 500)))
read_complete_example =
    read_complete ram-IsDevice volume-IsVolume ram-Works active small_file blank 1000 image
      volume_cluster (omega arith) third chain

-- Ten bytes back from the end.
seek_lem_example :
    ((n : ℕ)
      → n ≤ 600
      → pos 600 +ℤ negsuc 9 ≡ pos n
      → seek small_file (negsuc 9) 2 ≡ (some n, record small_file { position = n }))
    × (((n : ℕ) → n ≤ 600 → pos 600 +ℤ negsuc 9 ≢ pos n)
        → seek small_file (negsuc 9) 2 ≡ (none, small_file))
seek_lem_example =
    seek_lem small_file (negsuc 9) 2 600 (inr (inr (refl, refl))) (omega arith) (omega arith)
      (omega arith)

truncate_lem_example :
    Truncates ram-IsDevice volume-IsVolume small_file 10 (truncate ram volume small_file 10 image)
truncate_lem_example =
    truncate_lem ram-IsDevice volume-IsVolume small_file 10 image volume_cluster (omega arith)
      (omega arith)

-- A file of 8 bytes with no cluster.
abbrev no_cluster : File
no_cluster = record small_file {
  file = record small_entry { first_cluster_low = 0; file_size = 8 };
  first_cluster = 0;
  start_lba = 0;
  position = 0;
}

first_write : (ram.write_at 0 0 4 (λ x. x + 1) image).0 ≡ true
unfolding ram write_bytes write_loop write_chunk finished
first_write = refl

write-disk_start_example :
    (s' : Sectors) × (write ram volume no_cluster (λ x. x + 1) 4 image
      ≡ some (some 4, record no_cluster { position = 0 + 4 }, s'))
    × ((k : ℕ) → k < 4 → ram-IsDevice.disk s' (0 + k) ≡ k + 1)
write-disk_start_example =
    write-disk_start ram-IsDevice volume-IsVolume no_cluster (λ x. x + 1) 4 image refl
      volume_cluster (omega arith) (omega arith) (omega arith) first_write
