-- ===== src/Drivers/Fat32/Table/Tests.antt =====
-- The table of the small volume.
use plum_os.Prelude.{ℕ, ◌*◌, ◌/◌, ◌≤◌, ◌<◌, ◌≡◌, refl, true, none, some, arith, ◌==◌, if◌then◌else◌}
use plum_os.Drivers.Disk.Ram.{ram, ram-IsDevice}
use plum_os.Drivers.Fat32.Example.{volume, volume-IsVolume, image}
use plum_os.Drivers.Fat32.{mount}
use plum_os.Drivers.Fat32.Table.{
  active_fat, set_next_cluster, get_next_cluster, merge_entry, link_of, find_free_cluster,
  fat_start_lba, set_from, write_backups, next_from,
}
use plum_os.Drivers.Disk.{read_bytes, write_bytes, read_loop, write_loop, write_chunk}
use plum_os.Drivers.Disk.Device.{fetched, finished}
use plum_os.Drivers.Fat32.Table.Entries.{Fits, entry}
use plum_os.Drivers.Fat32.Table.Get.{next_cluster}
use plum_os.Drivers.Fat32.Table.Changed.{InUse, IsSetTo}
use plum_os.Drivers.Fat32.Table.Scan.{AllUsed, Lowest}
use plum_os.Drivers.Fat32.Table.Find.{Readable, find_free_cluster_lem}
use plum_os.Drivers.Fat32.Table.Set.{set_next_cluster_lem, get_next-set_next}

set_done : (set_next_cluster ram volume 4 5 image).0 ≡ true
unfolding set_next_cluster set_from write_backups fat_start_lba ram read_bytes write_bytes read_loop
    write_loop write_chunk fetched finished mount
set_done = refl

got_3 : (get_next_cluster ram volume 3 (set_next_cluster ram volume 4 5 image).1).0 ≡ some 4
unfolding get_next_cluster next_from fat_start_lba link_of set_next_cluster set_from write_backups
    ram read_bytes write_bytes read_loop write_loop write_chunk fetched finished mount
got_3 = refl

fits : (c : ℕ) → c < 64 → Fits volume c
unfolding mount
fits c h = omega arith

-- Cluster 5 as the one that follows cluster 4.
set_next_cluster_lem_example :
    (2 ≤ 4)
    × (4 ≤ volume.max_cluster)
    × (active_fat volume < volume.fat.bpb.num_of_fats)
    × IsSetTo volume
        (InUse volume)
        (ram-IsDevice.disk image)
        (ram-IsDevice.disk (set_next_cluster ram volume 4 5 image).1)
        4
        (merge_entry 5 (entry volume (ram-IsDevice.disk image) (active_fat volume) 4))
set_next_cluster_lem_example =
    set_next_cluster_lem ram-IsDevice volume-IsVolume 4 5 image (fits 4 (omega arith)) set_done

get_next-set_next_example :
    (if 3 == 4
      then link_of volume.max_cluster 5
      else next_cluster volume (ram-IsDevice.disk image) 3)
    ≡ some 4
get_next-set_next_example =
    get_next-set_next ram-IsDevice volume-IsVolume 4 5 3 image 4 (fits 4 (omega arith))
      (fits 3 (omega arith)) set_done got_3

-- What a search of the table of the small volume comes to.
find_free_cluster_lem_example :
    (ram-IsDevice.disk (find_free_cluster ram volume true image).1 ≡ ram-IsDevice.disk image)
    × ((c : ℕ)
        → (find_free_cluster ram volume true image).0 ≡ some c
        → Lowest
            (entry volume (ram-IsDevice.disk image) (active_fat volume))
            0
            volume.max_cluster
            c)
    × (true ≡ true
        → active_fat volume < volume.fat.bpb.num_of_fats
        → Readable ram
        → (find_free_cluster ram volume true image).0 ≡ none
        → (top : ℕ) → top ≤ volume.max_cluster
        → top ≤ volume.fat.bpb.ebpb.sectors_per_fat * (volume.fat.bpb.bytes_per_sector / 4)
        → AllUsed (entry volume (ram-IsDevice.disk image) (active_fat volume)) 0 top)
find_free_cluster_lem_example = find_free_cluster_lem ram-IsDevice volume-IsVolume true image
