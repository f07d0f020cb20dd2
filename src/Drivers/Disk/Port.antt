-- ===== src/Drivers/Disk/Port.antt =====
-- What is relied on of the port: it reads what the disk holds, and a write changes one sector.
use native.Mathlib.Nat.{div-mul-le_self, lt-div-mul-add}
use plum_os.Prelude.{
  ℕ, ◌+◌, ◌*◌, ◌/◌, ◌%◌, ◌≤◌, ◌<◌, ◌≡◌, ap, ap₂, ◌≢◌, ◌⊎◌, inl, inr, true, some, arith, block_of,
}
use plum_os.Std.Memory.{Bytes}
use plum_os.Drivers.Disk.{SectorPort}

-- `byte s l o` is byte `o` of sector `l`. A write that fails may have changed its sector.
pub record IsPort {S : Type 0} (port : SectorPort S) (sector_size : ℕ) : Type 0 where
  pub byte : S → ℕ → ℕ → ℕ
  pub size_pos : 0 < sector_size
  pub read_holds :
      (l : ℕ) (s : S) (b : Bytes) (o : ℕ)
      → (port.read_sector l s).0 ≡ some b
      → o < sector_size
      → b o ≡ byte s l o
  pub read_keeps : (l : ℕ) (s : S) (k o : ℕ) → byte (port.read_sector l s).1 k o ≡ byte s k o
  pub write_holds :
      (l : ℕ) (b : Bytes) (s : S) (o : ℕ)
      → (port.write_sector l b s).0 ≡ true
      → o < sector_size
      → byte (port.write_sector l b s).1 l o ≡ b o
  pub write_keeps :
      (l : ℕ) (b : Bytes) (s : S) (k o : ℕ)
      → k ≢ l
      → byte (port.write_sector l b s).1 k o ≡ byte s k o

module _ {S : Type 0} {port : SectorPort S} {sector_size : ℕ} (w : IsPort port sector_size) where
  -- The byte at an address that counts from the beginning of the disk.
  abbrev pub flat : S → ℕ → ℕ
  flat s p = w.byte s (p / sector_size) (p % sector_size)

  pub flat_at : (s : S) (l o : ℕ) → o < sector_size → flat s (l * sector_size + o) ≡ w.byte s l o
  flat_at s l o h = let (q, r) = block_of sector_size l o h in ap₂ (w.byte s) q r

  -- An address of another sector.
  pub other_sector :
      (l p : ℕ) → (p < l * sector_size) ⊎ (l * sector_size + sector_size ≤ p) → p / sector_size ≢ l
  other_sector l p h e =
      let lo = div-mul-le_self p sector_size in
      let hi = lt-div-mul-add {a = p} w.size_pos in
      let same = ap (λ z. z * sector_size) e in elim h [ inl a ↦ omega arith | inr a ↦ omega arith ]
