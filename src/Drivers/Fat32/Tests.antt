-- ===== src/Drivers/Fat32/Tests.antt =====
-- The small volume, and one that has no size in 16 bits.
use plum_os.Prelude.{ℕ, ◌+◌, ◌-◌, ◌*◌, ◌/◌, ◌^◌, ◌≤◌, ◌<◌, ◌≡◌, refl, arith}
use plum_os.Drivers.Fat32.{FatInfo, mount, calculate_lba, data_start_of}
use plum_os.Drivers.Fat32.Mount.{mount_wraps}
use plum_os.Drivers.Fat32.Place.{IsFat32, IsPlaced, mount_lem}
use plum_os.Drivers.Fat32.Example.{small_part, small_part_valid}

small_start : small_part.data_start ≡ data_start_of small_part.gpt_partition small_part.bpb
unfolding data_start_of
small_start = refl

mount_lem_example :
    IsFat32 small_part.bpb
    × ((mount small_part).cluster_size ≡ 1 * 512)
    × ((mount small_part).root_lba ≡ calculate_lba (mount small_part) 2)
    × ((c : ℕ) → 2 ≤ c → c < 2 ^ 32 → IsPlaced small_part (mount small_part) c)
mount_lem_example =
    mount_lem small_part small_part_valid small_start (omega arith) (omega arith) (omega arith)

abbrev large_part : FatInfo
large_part = record small_part {
  bpb = record small_part.bpb { total_sectors = 0; large_sector_count = 131072 };
}

mount_wraps_example :
    ((mount large_part).data_sectors + 1 + 2 * 1 ≡ 2 ^ 32)
    × ((mount large_part).max_cluster ≡ (2 ^ 32 - 1 - 2 * 1) / 1 + 1)
mount_wraps_example = mount_wraps large_part refl (omega arith) (omega arith)
