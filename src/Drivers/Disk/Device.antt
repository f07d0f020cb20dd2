-- ===== src/Drivers/Disk/Device.antt =====
-- A disk that is read and written in bytes: what the file systems rely on, and that `ahci_device`
-- provides it over a port that works.
use mathlib.Core.Path.{fun_ext}
use mathlib.Core.Option.{some-injective}
use plum_os.Prelude.{
  ℕ, ◌+◌, ◌*◌, ◌/◌, ◌%◌, ◌≤◌, ◌<◌, ◌≡◌, refl, sym, ap, ◌∙◌, ◌≢◌, ◌⊎◌, Bool, true, false, Option,
  none, some, arith, ◌==◌, ne→==_false, word,
}
use plum_os.Std.Memory.{Bytes}
use plum_os.Drivers.Disk.{SectorPort, read_bytes, write_bytes, read_one_sector}
use plum_os.Drivers.Disk.Port.{IsPort, flat, flat_at}
use plum_os.Drivers.Disk.Read.{Fetched, read_bytes_lem}
use plum_os.Drivers.Disk.Write.{write_bytes_lem}

-- `read_bytes`, `write_bytes` and `read` of one sector. A read gives what it puts into the buffer, or
-- `none` for false.
pub record Device (S : Type 0) : Type 0 where
  pub read_at : ℕ → ℕ → ℕ → S → Option Bytes × S
  pub write_at : ℕ → ℕ → ℕ → Bytes → S → Bool × S
  pub read_one : ℕ → S → Option Bytes × S

-- `disk s` are the bytes of the disk, from its beginning on. The laws are for sectors with a number
-- below 2^64.
pub record IsDevice {S : Type 0} (dev : Device S) (sector_size : ℕ) : Type 0 where
  pub disk : S → ℕ → ℕ
  pub sized : 0 < sector_size
  pub read_gives :
      (l o n : ℕ) (s : S) (b : Bytes) (k : ℕ)
      → l + o / sector_size + n < word
      → (dev.read_at l o n s).0 ≡ some b
      → k < n
      → b k ≡ disk s (l * sector_size + o + k)
  pub read_keeps :
      (l o n : ℕ) (s : S) → l + o / sector_size + n < word → disk (dev.read_at l o n s).1 ≡ disk s
  pub write_puts :
      (l o n : ℕ) (b : Bytes) (s : S) (k : ℕ)
      → l + o / sector_size + n < word
      → (dev.write_at l o n b s).0 ≡ true
      → k < n
      → disk (dev.write_at l o n b s).1 (l * sector_size + o + k) ≡ b k
  pub write_keeps :
      (l o n : ℕ) (b : Bytes) (s : S) (a : ℕ)
      → l + o / sector_size + n < word
      → (dev.write_at l o n b s).0 ≡ true
      → (a < l * sector_size + o) ⊎ (l * sector_size + o + n ≤ a)
      → disk (dev.write_at l o n b s).1 a ≡ disk s a
  pub one_gives :
      (l : ℕ) (s : S) (b : Bytes) (k : ℕ)
      → (dev.read_one l s).0 ≡ some b
      → k < sector_size
      → b k ≡ disk s (l * sector_size + k)
  pub one_keeps : (l : ℕ) (s : S) → disk (dev.read_one l s).1 ≡ disk s

-- Every read goes through.
abbrev pub Works : {S : Type 0} → Device S → Type 0
Works {S} dev = (l o n : ℕ) (s : S) → (b : Bytes) × ((dev.read_at l o n s).0 ≡ some b)

module _ {S : Type 0} (port : SectorPort S) (sector_size : ℕ) where
  abbrev blank : Bytes
  blank = λ x. 0

  -- The result of a read, whose fuel is enough.
  unfoldable pub fetched : S → Option (Bool × Bytes × S) → Option Bytes × S
  fetched s none = (none, s)
  fetched s (some (false, b, s')) = (none, s')
  fetched s (some (true, b, s')) = (some b, s')

  unfoldable pub finished : S → Option (Bool × S) → Bool × S
  finished s none = (false, s)
  finished s (some r) = r

  -- `ahci_device` with memory for its sector.
  unfoldable pub ahci_device : Device S
  ahci_device = record {
    read_at = λ l o n s. fetched s (read_bytes port sector_size true l o n blank s);
    write_at = λ l o n b s. finished s (write_bytes port sector_size (some blank) l o n b s);
    read_one = λ l s. read_one_sector port sector_size l s;
  }

pos_ne : {n : ℕ} → 0 < n → n ≢ 0
pos_ne h e = absurd (omega arith)

module _ {S : Type 0} {port : SectorPort S} {sector_size : ℕ} (w : IsPort port sector_size) where
  got :
      (s : S) (p n : ℕ) (r : Bool × Bytes × S) (b : Bytes) (k : ℕ)
      → Fetched w p n 0 (λ x. 0) s r
      → (fetched port sector_size s (some r)).0 ≡ some b
      → k < n
      → b k ≡ flat w s (p + k)
  unfolding fetched
  got s p n (false, b', s') b k f e lt = cc
  got s p n (true, b', s') b k f e lt =
      let here : 0 + k ≡ k = omega arith in
      sym (ap (λ g. g k) (some-injective _ _ e)) ∙ ap b' (sym here) ∙ f.fetched refl k lt

  kept :
      (s : S) (p n : ℕ) (r : Bool × Bytes × S)
      → Fetched w p n 0 (λ x. 0) s r
      → flat w (fetched port sector_size s (some r)).1 ≡ flat w s
  unfolding fetched
  kept s p n (false, b', s') f = fun_ext f.same_disk
  kept s p n (true, b', s') f = fun_ext f.same_disk

  is_read : (l : ℕ) (s : S) → read_one_sector port sector_size l s ≡ port.read_sector l s
  unfolding read_one_sector
  is_read l s =
      let pos : (sector_size == 0) ≡ false = ne→==_false _ _ (λ z. pos_ne w.size_pos z) in
      rw pos refl

  one_sector-port :
      (l : ℕ) (s : S) {b : Bytes}
      → 0 < sector_size
      → (read_one_sector port sector_size l s).0 ≡ some b
      → (port.read_sector l s).0 ≡ some b
  one_sector-port l s h e = ap (λ r. r.0) (sym (is_read l s)) ∙ e

  one_sector-keeps :
      (l : ℕ) (s : S) (a : ℕ) → flat w (read_one_sector port sector_size l s).1 a ≡ flat w s a
  one_sector-keeps l s a =
      ap (λ r. flat w r.1 a) (is_read l s) ∙ w.read_keeps l s (a / sector_size) (a % sector_size)

  -- The device over a port that works keeps what file systems rely on.
  pub ahci_device-IsDevice : IsDevice (ahci_device port sector_size) sector_size
  unfolding ahci_device finished
  ahci_device-IsDevice = record {
    disk = flat w;
    sized = w.size_pos;
    read_gives = λ l o n s b k h e lt.
        let (r, run, f) = read_bytes_lem w true l o n (λ x. 0) s h in
        got s (l * sector_size + o) n r b k f
          (ap (λ x. (fetched port sector_size s x).0) (sym run) ∙ e) lt;
    read_keeps = λ l o n s h.
        let (r, run, f) = read_bytes_lem w true l o n (λ x. 0) s h in
        ap (λ x. flat w (fetched port sector_size s x).1) run ∙ kept s (l * sector_size + o) n r f;
    write_puts = λ l o n b s k h e lt.
        let (done, s', run, f) = write_bytes_lem w (λ x. 0) l o n b s h in
        let ok = ap (λ x. (finished port sector_size s x).0) (sym run) ∙ e in
        let here : 0 + k ≡ k = omega arith in
        ap (λ x. flat w (finished port sector_size s x).1 (l * sector_size + o + k)) run
        ∙ f.stored ok k lt
        ∙ ap b here;
    write_keeps = λ l o n b s a h e out.
        let (done, s', run, f) = write_bytes_lem w (λ x. 0) l o n b s h in
        let ok = ap (λ x. (finished port sector_size s x).0) (sym run) ∙ e in
        ap (λ x. flat w (finished port sector_size s x).1 a) run ∙ f.beside ok a out;
    one_gives = λ l s b k e lt.
        w.read_holds l s b k (one_sector-port l s w.size_pos e) lt ∙ sym (flat_at w s l k lt);
    one_keeps = λ l s. fun_ext (λ a. one_sector-keeps l s a);
  }
