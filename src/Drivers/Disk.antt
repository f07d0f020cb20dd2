-- ===== src/Drivers/Disk.antt =====
-- src/Drivers/achi/ahci_device.h: bytes of a disk by way of whole sectors. The port, which moves a
-- sector between the disk and memory, is a parameter. A buffer is a function from its indices to its
-- bytes; buffers do not overlap, and none of the pointers is null.
pub mod Port
pub mod Read
pub mod Write
pub mod Device
pub mod Ram
mod Tests
use plum_os.Prelude.{
  ℕ, zero, suc, ◌+◌, ◌-◌, ◌/◌, ◌%◌, Bool, true, false, not, ◌&&◌, ◌||◌, Option, none, some, ltb,
  leb, ◌==◌, if◌then◌else◌, add64,
}
use plum_os.Std.Memory.{Bytes}

-- `port->read` and `port->write` of one sector: what was read, or `none` for false, and whether the
-- write went through. `S` is the state of the hardware.
pub record SectorPort (S : Type 0) : Type 0 where
  pub read_sector : ℕ → S → Option Bytes × S
  pub write_sector : ℕ → Bytes → S → Bool × S

-- `memmove(to + i, from + j, n)` between two buffers.
abbrev pub splice : Bytes → ℕ → Bytes → ℕ → ℕ → Bytes
splice to i from j n = λ x. if leb i x && ltb x (i + n) then from (j + (x - i)) else to x

module _ {S : Type 0} (port : SectorPort S) (sector_size : ℕ) where
  -- `read` of one sector.
  unfoldable pub read_one_sector : ℕ → S → Option Bytes × S
  read_one_sector start s = if sector_size == 0 then (none, s) else port.read_sector start s

  -- The loop of `read_bytes`: whether it went through, the buffer and the hardware; `none`: the fuel
  -- ran out. uint32_t `remaining` and `buffer_offset` stay below the count.
  unfoldable pub read_loop : ℕ → ℕ → ℕ → ℕ → ℕ → Bytes → S → Option (Bool × Bytes × S)
  read_loop zero remaining current_sector offset_in_sector buffer_offset buffer s = none
  read_loop (suc fuel) remaining current_sector offset_in_sector buffer_offset buffer s =
      let available = sector_size - offset_in_sector in
      let chunk = if ltb remaining available then remaining else available in
      let (got, s') = port.read_sector current_sector s in
      if remaining == 0 then some (true, buffer, s) else elim got [
        | none ↦ some (false, buffer, s')
        | some temp ↦
            read_loop fuel (remaining - chunk) (add64 current_sector 1) 0 (buffer_offset + chunk)
              (splice buffer buffer_offset temp offset_in_sector chunk) s'
      ]

  -- `room` says whether `malloc_align` finds memory for a sector.
  unfoldable pub read_bytes : Bool → ℕ → ℕ → ℕ → Bytes → S → Option (Bool × Bytes × S)
  read_bytes room start offset count buffer s =
      if count == 0
      then some (true, buffer, s)
      else if sector_size == 0 || not room
      then some (false, buffer, s)
      else read_loop (count + 1) count (add64 start (offset / sector_size)) (offset % sector_size) 0
          buffer s

  -- The rest of a round of the loop of `write_bytes`, with what is in `temp`.
  unfoldable pub write_back : ℕ → ℕ → ℕ → ℕ → Bytes → Bytes → Option Bytes × S → Bool × Bytes × S
  write_back chunk current_sector offset_in_sector buffer_offset temp buffer (none, s) =
      (false, temp, s)
  write_back chunk current_sector offset_in_sector buffer_offset temp buffer (some old, s) =
      let temp' = splice old offset_in_sector buffer buffer_offset chunk in
      let (done, s') = port.write_sector current_sector temp' s in (done, temp', s')

  -- One round: a sector that is not written whole is read first.
  unfoldable pub write_chunk : ℕ → ℕ → ℕ → ℕ → Bytes → Bytes → S → Bool × Bytes × S
  unfolding write_back
  write_chunk chunk current_sector offset_in_sector buffer_offset temp buffer s =
      write_back chunk current_sector offset_in_sector buffer_offset temp buffer
        (if chunk == sector_size then (some temp, s) else port.read_sector current_sector s)

  unfoldable pub write_loop : ℕ → ℕ → ℕ → ℕ → ℕ → Bytes → Bytes → S → Option (Bool × S)
  write_loop zero remaining current_sector offset_in_sector buffer_offset temp buffer s = none
  write_loop (suc fuel) remaining current_sector offset_in_sector buffer_offset temp buffer s =
      let available = sector_size - offset_in_sector in
      let chunk = if ltb remaining available then remaining else available in
      let (done, temp', s') =
        write_chunk chunk current_sector offset_in_sector buffer_offset temp buffer s in
      if remaining == 0 then some (true, s) else elim done [
        | false ↦ some (false, s')
        | true ↦
            write_loop fuel (remaining - chunk) (add64 current_sector 1) 0 (buffer_offset + chunk)
              temp' buffer s'
      ]

  -- `temp` is what `malloc_align` returns, `none` for nullptr.
  unfoldable pub write_bytes : Option Bytes → ℕ → ℕ → ℕ → Bytes → S → Option (Bool × S)
  write_bytes none start offset count buffer s = some (count == 0, s)
  write_bytes (some temp) start offset count buffer s =
      if count == 0
      then some (true, s)
      else if sector_size == 0
      then some (false, s)
      else write_loop (count + 1) count (add64 start (offset / sector_size)) (offset % sector_size)
          0 temp buffer s
