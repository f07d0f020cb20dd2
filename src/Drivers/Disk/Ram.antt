-- ===== src/Drivers/Disk/Ram.antt =====
-- A port over sectors in memory, which always works.
use mathlib.Core.Option.{some-injective}
use plum_os.Prelude.{
  ℕ, zero, suc, ◌+◌, ◌-◌, ◌/◌, ◌%◌, ◌<◌, ◌≡◌, refl, sym, ap, inl, inr, true, some, arith, ◌==◌,
  if◌then◌else◌, ne→==_false, Bool-cases, add64,
}
use plum_os.Std.Memory.{Bytes}
use plum_os.Drivers.Disk.{SectorPort, splice, read_loop, read_bytes}
use plum_os.Drivers.Disk.Read.{chunk_of}
use plum_os.Drivers.Disk.Port.{IsPort}
use plum_os.Drivers.Disk.Device.{
  Device, IsDevice, Works, fetched, ahci_device, ahci_device-IsDevice,
}

-- Byte `o` of sector `l`.
abbrev pub Sectors : Type 0
Sectors = ℕ → ℕ → ℕ

unfoldable pub ram_port : SectorPort Sectors
ram_port = record {
  read_sector = λ l s. (some (s l), s);
  write_sector = λ l b s. (true, λ k. if k == l then b else s k);
}

pub ram_port-IsPort : IsPort ram_port 512
unfolding ram_port
ram_port-IsPort = record {
  byte = λ s. s;
  size_pos = omega arith;
  read_holds = λ l s b o e lt. ap (λ f. f o) (sym (some-injective _ _ e));
  read_keeps = λ l s k o. refl;
  write_holds = λ l b s o e lt. ground arith;
  write_keeps = λ l b s k o ne. let other = ne→==_false k l ne in rw other refl;
}

unfoldable pub ram : Device Sectors
unfolding ahci_device ram_port
ram = ahci_device ram_port 512

pub ram-IsDevice : IsDevice ram 512
unfolding ram
ram-IsDevice = ahci_device-IsDevice ram_port-IsPort

-- The loop of `read_bytes` over it ends with true.
ram_loop :
    (fuel n l o i : ℕ) (b : Bytes) (s : Sectors)
    → o < 512
    → n < fuel
    → (b' : Bytes) × (read_loop ram_port 512 fuel n l o i b s ≡ some (true, b', s))
unfolding read_loop ram_port
ram_loop zero n l o i b s ho h = absurd (omega arith)
ram_loop (suc fuel) n l o i b s ho h = elim (Bool-cases (n == 0)) [
  | inl e ↦ (b, rw e refl)
  | inr e ↦
      let (b', run) =
        ram_loop fuel (n - chunk_of n (512 - o)) (add64 l 1) 0 (i + chunk_of n (512 - o))
          (splice b i (s l) o (chunk_of n (512 - o))) s (omega arith) (ground arith) in
      (b', rw e run)
]

ram_bytes :
    (l o n : ℕ) (s : Sectors)
    → (b : Bytes) × (read_bytes ram_port 512 true l o n (λ x. 0) s ≡ some (true, b, s))
unfolding read_bytes
ram_bytes l o n s = elim (Bool-cases (n == 0)) [
  | inl e ↦ ((λ x. 0), rw e refl)
  | inr e ↦
      let (b, run) =
        ram_loop (n + 1) n (add64 l (o / 512)) (o % 512) 0 (λ x. 0) s (omega arith) (omega arith) in
      (b, rw e run)
]

pub ram-Works : Works ram
unfolding ram fetched
ram-Works =
    λ l o n s. let (b, run) = ram_bytes l o n s in (b, ap (λ r. (fetched ram_port 512 s r).0) run)
