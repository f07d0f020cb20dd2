-- ===== src/Drivers/Fat32/File/Read.antt =====
-- `read` gives the bytes of the file from its position on.
use native.Mathlib.Nat.{mod-lt, div-add-mod, mul_comm}
use mathlib.Core.Option.{some-injective}
use plum_os.Prelude.{
  ℕ, ◌+◌, ◌-◌, ◌*◌, ◌/◌, ◌%◌, ◌^◌, ◌≤◌, ◌<◌, ◌≡◌, refl, sym, ap, ◌∙◌, subst, ◌⊎◌, inl, inr, Bool,
  ◌||◌, Option, none, some, arith, ltb, leb, ◌==◌, if◌then◌else◌, Bool-cases, Option-cases, add64,
}
use plum_os.Std.Memory.{Bytes}
use plum_os.Drivers.Disk.Device.{Device, IsDevice}
use plum_os.Drivers.Fat32.{FileSystem}
use plum_os.Drivers.Fat32.Table.Entries.{IsVolume}
use plum_os.Drivers.Fat32.File.{
  File, Transfer, walk, failed, read_loop, read_walked, read_transfer, finish, read,
}
use plum_os.Drivers.Fat32.File.Chain.{cluster_at, IsByte, walk-keeps, walk-gives}
use plum_os.Drivers.Fat32.File.Round.{cluster_small}
use plum_os.Drivers.Fat32.File.Loop.{read_loop_lem}

abbrev moved_on : File → ℕ → File
moved_on f n = record f { position = f.position + n }

below_zero : {n k : ℕ} → 0 ≡ n → k < n → ⊥
below_zero e lt = absurd (omega arith)

walked :
    {S : Type 0} (r : Option ℕ × S)
    → ((s : S) × (r ≡ (none, s))) ⊎ ((c : ℕ) × (s : S) × (r ≡ (some c, s)))
walked (none, s) = inl (s, refl)
walked (some c, s) = inr (c, s, refl)

least :
    (a b : ℕ)
    → 0 < a
    → 0 < b
    → (0 < (if ltb a b then a else b))
      × ((if ltb a b then a else b) ≤ a)
      × ((if ltb a b then a else b) ≤ b)
least a b h k = (ground arith, ground arith, ground arith)

moved_le :
    {S : Type 0} (t : Transfer S) (wanted top : ℕ)
    → (t.returned ≡ none → t.moved ≡ 0)
    → ((n : ℕ) → t.returned ≡ some n → (t.moved ≡ n) × (0 ≤ n) × (n ≤ wanted))
    → wanted ≤ top
    → t.moved ≤ top
moved_le t wanted top nothing moves le = elim (Option-cases t.returned) [
  | inl e ↦ omega (arith, nothing e)
  | inr (n, e) ↦ let (a, b, c) = moves n e in omega arith
]

module _ {S : Type 0} {dev : Device S} {fs : FileSystem} {sector_size : ℕ}
    (w : IsDevice dev sector_size) (v : IsVolume fs sector_size) where
  -- What a read of `size` bytes into `buffer` comes to.
  pub record ReadsFile (f : File) (buffer : Bytes) (size : ℕ) (s : S) (t : Transfer S)
      : Type 0 where
    pub same_disk : w.disk t.state ≡ w.disk s
    pub nothing : t.returned ≡ none → t.moved ≡ 0
    pub moves :
        (n : ℕ)
        → t.returned ≡ some n
        → (t.moved ≡ n) × (n ≤ size) × ((n ≡ 0) ⊎ (f.position + n ≤ f.file.file_size))
    pub bytes :
        (n k : ℕ)
        → t.returned ≡ some n
        → k < n
        → IsByte fs (w.disk s) sector_size f.first_cluster (f.position + k) (t.buffer k)
    pub beside : (n k : ℕ) → t.returned ≡ some n → n ≤ k → t.buffer k ≡ buffer k

  refused :
      (f : File) (buffer : Bytes) (size : ℕ) (s s' : S)
      → w.disk s' ≡ w.disk s
      → ReadsFile f buffer size s (failed dev fs buffer s')
  refused f buffer size s s' e = record {
    same_disk = e;
    nothing = λ h. refl;
    moves = λ n h. cc;
    bytes = λ n k h. cc;
    beside = λ n k h. cc;
  }

  -- The loop, from the cluster of the position on.
  read_from_lem :
      (wanted c : ℕ) (f : File) (buffer : Bytes) (size : ℕ) (s s' : S)
      → f.cluster_size ≡ fs.cluster_size
      → 0 < wanted
      → wanted ≤ size
      → f.position + wanted ≤ f.file.file_size
      → w.disk s' ≡ w.disk s
      → cluster_at fs (w.disk s) f.first_cluster (0 + f.position / f.cluster_size) ≡ some c
      → (t : Transfer S) × (read_loop dev fs
            (wanted + 1)
            f.cluster_size
            wanted
            0
            (f.position % f.cluster_size)
            c
            buffer
            s'
          ≡ some t)
        × ReadsFile f buffer size s t
        × (t.moved ≤ f.file.file_size)
  read_from_lem wanted c f buffer size s s' e pos le_size le_left kept found =
      let b = fs.cluster_size in
      let p = f.position in
      let (big, small) = cluster_small v in
      let index : 0 + p / f.cluster_size ≡ p / b =
        let plain : 0 + p / f.cluster_size ≡ p / f.cluster_size = omega arith in
        plain ∙ ap (λ z. p / z) e in
      let at = ap (cluster_at fs (w.disk s) f.first_cluster) (sym index) ∙ found in
      let place : p + 0 ≡ p / b * b + p % b = omega (arith, div-add-mod p b, mul_comm b (p / b)) in
      let (t, run, done) =
        read_loop_lem w v (wanted + 1) wanted 0 (p % b) c (p / b) f.first_cluster p buffer s'
          (w.disk s) kept at place (mod-lt p big) pos (omega arith) in
      (
        t,
        ap (λ z. read_loop dev fs (wanted + 1) z wanted 0 (p % z) c buffer s') e ∙ run,
        record {
          same_disk = done.same_disk;
          nothing = done.nothing;
          moves = λ n h. (
            let (x, y, z) = done.moves n h in x,
            let (x, y, z) = done.moves n h in omega arith,
            inr (let (x, y, z) = done.moves n h in omega arith),
          );
          bytes = λ n k h lt. done.bytes n k h (omega arith) lt;
          beside = λ n k h le. done.beside n k h (inr le);
        },
        moved_le t wanted f.file.file_size done.nothing done.moves (omega arith),
      )

  -- The part behind the guards.
  read_walked_lem :
      (room : Bool) (f : File) (buffer : Bytes) (size : ℕ) (s : S)
      → f.cluster_size ≡ fs.cluster_size
      → 0 < size
      → f.position < f.file.file_size
      → (t : Transfer S) × (read_walked dev fs room f
            (if ltb size (f.file.file_size - f.position)
              then size
              else f.file.file_size - f.position)
            buffer
            (walk dev fs (f.position / f.cluster_size) f.first_cluster s)
          ≡ some t)
        × ReadsFile f buffer size s t
        × (t.moved ≤ f.file.file_size)
  unfolding read_walked
  read_walked_lem room f buffer size s e pos before =
      let left = f.file.file_size - f.position in
      let wanted = if ltb size left then size else left in
      let (some_bytes, le_size, le_left) = least size left pos (omega arith) in
      elim (walked (walk dev fs (f.position / f.cluster_size) f.first_cluster s)) [
        | inl (s', end) ↦ (
          failed dev fs buffer s',
          ap (read_walked dev fs room f wanted buffer) end,
          refused f buffer size s s' (
              ap (λ r. w.disk r.1) (sym end)
              ∙ walk-keeps w v (f.position / f.cluster_size) f.first_cluster s),
          omega arith,
        )
        | inr (c, s', end) ↦
            let kept =
              ap (λ r. w.disk r.1) (sym end)
              ∙ walk-keeps w v (f.position / f.cluster_size) f.first_cluster s in
            let found =
              walk-gives w v (f.position / f.cluster_size) 0 f.first_cluster f.first_cluster s c
                (w.disk s) refl refl (ap (λ r. r.0) end) in
            elim (Bool-cases room) [
              | inr full ↦ (
                failed dev fs buffer s',
                ap (read_walked dev fs room f wanted buffer) end ∙ rw full refl,
                refused f buffer size s s' kept,
                omega arith,
              )
              | inl free ↦
                  let (t, run, r, few) =
                    read_from_lem wanted c f buffer size s s' e some_bytes le_size (omega arith)
                      kept found in
                  (t, ap (read_walked dev fs room f wanted buffer) end ∙ rw free run, r, few)
            ]
      ]

  read_transfer_lem :
      (room : Bool) (f : File) (buffer : Bytes) (size : ℕ) (s : S)
      → f.cluster_size ≡ fs.cluster_size
      → (t : Transfer S) × (read_transfer dev fs room f buffer size s ≡ some t)
        × ReadsFile f buffer size s t
        × (t.moved ≤ f.file.file_size)
  unfolding read_transfer
  read_transfer_lem room f buffer size s e =
      elim (Bool-cases (f.cluster_size == 0 || ltb f.start_lba 2)) [
        | inl bad ↦
            (failed dev fs buffer s, rw bad refl, refused f buffer size s s refl, omega arith)
        | inr good ↦ elim (Bool-cases (size == 0 || leb f.file.file_size f.position)) [
          | inl past ↦ (
            record { returned = some 0; moved = 0; buffer = buffer; state = s },
            rw (good, past) refl,
            record {
              same_disk = refl;
              nothing = λ h. refl;
              moves = λ n h. (
                some-injective _ _ h,
                subst (λ z. z ≤ size) (some-injective _ _ h) (omega arith),
                inl (sym (some-injective _ _ h)),
              );
              bytes = λ n k h lt. absurd (below_zero (some-injective _ _ h) lt);
              beside = λ n k h le. refl;
            },
            omega arith,
          )
          | inr more ↦
              let left = f.file.file_size - f.position in
              let wanted = if ltb size left then size else left in
              let (t, run, r, few) =
                read_walked_lem room f buffer size s e (ground arith) (ground arith) in
              (t, rw (good, more) run, r, few)
        ]
      ]

  -- `read` returns, with enough fuel, for a file with the cluster size of the volume, less than 2^32
  -- bytes and a position below 2^63, and leaves the disk as it is. If it returns -1, the position stays. If it returns a number, the position goes on by
  -- that number; it is not above `size` and does not lead past the end of the file; that many bytes
  -- of the buffer are the bytes of the file from the old position on, found along the chain of its
  -- clusters in the active table; and the bytes of the buffer behind them are as they were.
  pub read_lem :
      (room : Bool) (f : File) (buffer : Bytes) (size : ℕ) (s : S)
      → f.cluster_size ≡ fs.cluster_size
      → f.position < 2 ^ 63
      → f.file.file_size < 2 ^ 32
      → (t : Transfer S) × (read dev fs room f buffer size s
          ≡ some (t.returned, moved_on f t.moved, t.buffer, t.state))
        × ReadsFile f buffer size s t
  unfolding read finish
  read_lem room f buffer size s e p q =
      let (t, run, r, few) = read_transfer_lem room f buffer size s e in
      let small : add64 f.position t.moved ≡ f.position + t.moved = omega arith in
      (
        t,
        ap (finish dev fs f) run
            ∙ ap (λ z. some (t.returned, record f { position = z }, t.buffer, t.state)) small,
        r,
      )
