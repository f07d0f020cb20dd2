-- ===== src/Drivers/Disk/Tests.antt =====
-- A disk in memory: bytes that cross from one sector into the next.
use plum_os.Prelude.{◌+◌, ◌*◌, ◌≡◌, Bool, true, some, arith}
use plum_os.Std.Memory.{Bytes}
use plum_os.Drivers.Disk.{read_bytes, write_bytes}
use plum_os.Drivers.Disk.Ram.{Sectors, ram_port, ram_port-IsPort}
use plum_os.Drivers.Disk.Read.{Fetched, read_bytes_lem}
use plum_os.Drivers.Disk.Write.{Stored, write_bytes_lem}

-- Sector `l` is filled with `l`.
abbrev numbered : Sectors
numbered = λ l o. l

abbrev blank : Bytes
blank = λ x. 0

read_bytes_lem_example :
    (r : Bool × Bytes × Sectors) × (read_bytes ram_port 512 true 3 510 4 blank numbered ≡ some r)
    × Fetched ram_port-IsPort (3 * 512 + 510) 4 0 blank numbered r
read_bytes_lem_example = read_bytes_lem ram_port-IsPort true 3 510 4 blank numbered (omega arith)

write_bytes_lem_example :
    (done : Bool) × (s' : Sectors) × (write_bytes ram_port 512
        (some blank)
        3
        510
        4
        (λ x. x + 7)
        numbered
      ≡ some (done, s'))
    × Stored ram_port-IsPort (3 * 512 + 510) 4 0 (λ x. x + 7) numbered done s'
write_bytes_lem_example =
    write_bytes_lem ram_port-IsPort blank 3 510 4 (λ x. x + 7) numbered (omega arith)
