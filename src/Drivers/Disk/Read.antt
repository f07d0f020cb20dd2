-- ===== src/Drivers/Disk/Read.antt =====
-- `read_bytes` fetches the bytes from an address on.
use native.Mathlib.Nat.{mod-lt, div-add-mod}
use plum_os.Prelude.{
  ℕ, zero, suc, ◌+◌, ◌-◌, ◌*◌, ◌/◌, ◌%◌, ◌≤◌, ◌<◌, ◌≡◌, refl, sym, ap, ◌∙◌, subst, ◌⊎◌, inl, inr,
  Bool, true, false, ◌&&◌, none, some, arith, ltb, leb, ◌==◌, if◌then◌else◌, ltb→lt, ne→==_false,
  Bool-cases, Option-cases, word, add64,
}
use plum_os.Std.Memory.{Bytes}
use plum_os.Drivers.Disk.{SectorPort, splice, read_loop, read_bytes}
use plum_os.Drivers.Disk.Port.{IsPort, flat, flat_at}

pub splice_in :
    (to from : Bytes) (i j n k : ℕ) → k < n → splice to i from j n (i + k) ≡ from (j + k)
splice_in to from i j n k h =
    let hit : (leb i (i + k) && ltb (i + k) (i + n)) ≡ true = ground arith in
    let at : i + k - i ≡ k = omega arith in rw hit (ap (λ z. from (j + z)) at)

pub splice_out :
    (to from : Bytes) (i j n x : ℕ) → (x < i) ⊎ (i + n ≤ x) → splice to i from j n x ≡ to x
splice_out to from i j n x h =
    let miss : (leb i x && ltb x (i + n)) ≡ false = ground arith in rw miss refl

-- What one round moves.
abbrev pub chunk_of : ℕ → ℕ → ℕ
chunk_of remaining available = if ltb remaining available then remaining else available

module _ {S : Type 0} {port : SectorPort S} {sector_size : ℕ} (w : IsPort port sector_size) where
  -- What is left of a read of `n` bytes from address `p` into `buffer` from index `i` on: the disk
  -- is as it was; if it went through, the buffer has those bytes, and is the same elsewhere.
  pub record Fetched (p n i : ℕ) (buffer : Bytes) (s : S) (r : Bool × Bytes × S) : Type 0 where
    pub same_disk : (a : ℕ) → flat w r.2 a ≡ flat w s a
    pub fetched : r.0 ≡ true → (k : ℕ) → k < n → r.1 (i + k) ≡ flat w s (p + k)
    pub beside : (x : ℕ) → (x < i) ⊎ (i + n ≤ x) → r.1 x ≡ buffer x

  read_loop-some :
      (fuel n l o i : ℕ) (buffer temp : Bytes) (s : S)
      → (n == 0) ≡ false
      → l < word - 1
      → (port.read_sector l s).0 ≡ some temp
      → read_loop port sector_size (suc fuel) n l o i buffer s
        ≡ read_loop port sector_size fuel
            (n - chunk_of n (sector_size - o))
            (l + 1)
            0
            (i + chunk_of n (sector_size - o))
            (splice buffer i temp o (chunk_of n (sector_size - o)))
            (port.read_sector l s).1
  unfolding read_loop
  read_loop-some fuel n l o i buffer temp s e lt q =
      let next : add64 l 1 ≡ l + 1 = omega arith in rw (e, q, next) refl

  read_loop-none :
      (fuel n l o i : ℕ) (buffer : Bytes) (s : S)
      → (n == 0) ≡ false
      → (port.read_sector l s).0 ≡ none
      → read_loop port sector_size (suc fuel) n l o i buffer s
        ≡ some (false, buffer, (port.read_sector l s).1)
  unfolding read_loop
  read_loop-none fuel n l o i buffer s e q = rw (e, q) refl

  -- One sector was read, and the rest of the bytes after it.
  one_sector :
      (n c l o i : ℕ) (buffer temp : Bytes) (s : S) (r : Bool × Bytes × S)
      → c ≡ chunk_of n (sector_size - o)
      → o < sector_size
      → (port.read_sector l s).0 ≡ some temp
      → Fetched
          ((l + 1) * sector_size)
          (n - c)
          (i + c)
          (splice buffer i temp o c)
          (port.read_sector l s).1
          r
      → Fetched (l * sector_size + o) n i buffer s r
  one_sector n c l o i buffer temp s r ce ho q f =
      let small : (c ≤ n) × (o + c ≤ sector_size) = ground arith in
      let full : (n ≡ c) ⊎ (o + c ≡ sector_size) = ground arith in
      let row : (l + 1) * sector_size ≡ l * sector_size + sector_size = grind arith in
      let keeps : (a : ℕ) → flat w (port.read_sector l s).1 a ≡ flat w s a =
        λ a. w.read_keeps l s _ _ in
      record {
        same_disk = λ a. f.same_disk a ∙ keeps a;
        fetched = λ done k lt. elim (Bool-cases (ltb k c)) [
          | inl e ↦
              let kc = ltb→lt k c e in
              let at : l * sector_size + (o + k) ≡ l * sector_size + o + k = omega arith in
              f.beside (i + k) (inl (omega arith))
              ∙ splice_in buffer temp i o c k kc
              ∙ w.read_holds l s temp (o + k) q (omega arith)
              ∙ sym (flat_at w s l (o + k) (omega arith))
              ∙ ap (flat w s) at
          | inr e ↦
              let kc : c ≤ k = ground arith in
              let here : i + c + (k - c) ≡ i + k = omega arith in
              let there : (l + 1) * sector_size + (k - c) ≡ l * sector_size + o + k = elim full [
                | inl a ↦ absurd (omega arith)
                | inr a ↦ omega arith
              ] in
              ap r.1 (sym here)
              ∙ f.fetched done (k - c) (omega arith)
              ∙ keeps ((l + 1) * sector_size + (k - c))
              ∙ ap (flat w s) there
        ];
        beside = λ x h. f.beside x (ground arith) ∙ splice_out buffer temp i o c x (ground arith);
      }

  read_loop_lem :
      (fuel n l o i : ℕ) (buffer : Bytes) (s : S)
      → o < sector_size
      → n < fuel
      → l + n < word
      → (r : Bool × Bytes × S) × (read_loop port sector_size fuel n l o i buffer s ≡ some r)
        × Fetched (l * sector_size + o) n i buffer s r
  unfolding read_loop
  read_loop_lem zero n l o i buffer s ho hn hl = absurd (omega arith)
  read_loop_lem (suc fuel) n l o i buffer s ho hn hl = elim (Bool-cases (n == 0)) [
    | inl e ↦ (
      (true, buffer, s),
      rw e refl,
      record {
        same_disk = λ a. refl;
        fetched = λ _ k lt. absurd (ground arith);
        beside = λ x h. refl;
      },
    )
    | inr e ↦ elim (Option-cases (port.read_sector l s).0) [
      | inl q ↦ (
        (false, buffer, (port.read_sector l s).1),
        read_loop-none fuel n l o i buffer s e q,
        record { same_disk = λ a. w.read_keeps l s _ _; fetched = λ h. cc; beside = λ x h. refl },
      )
      | inr (temp, q) ↦
          let c = chunk_of n (sector_size - o) in
          let some_left : 0 < n = ground arith in
          let pos : 1 ≤ c = ground arith in
          let zero_off : (l + 1) * sector_size + 0 ≡ (l + 1) * sector_size = omega arith in
          let (r, run, f) =
            read_loop_lem fuel (n - c) (l + 1) 0 (i + c) (splice buffer i temp o c)
              (port.read_sector l s).1 w.size_pos (omega arith) (ground arith) in
          (
            r,
            read_loop-some fuel n l o i buffer temp s e (ground arith) q ∙ run,
            one_sector n c l o i buffer temp s r refl ho q (
                subst
                  (λ z.
                    Fetched z (n - c) (i + c) (splice buffer i temp o c) (port.read_sector l s).1 r)
                  zero_off f),
          )
    ]
  ]

  -- If the bytes asked for are at addresses whose sectors have a number, `read_bytes` ends and
  -- leaves the disk as it was and the buffer behind `count` as it was. If it returns true, the
  -- buffer has the `count` bytes of the disk from byte `offset` of sector `start` on.
  pub read_bytes_lem :
      (room : Bool) (start offset count : ℕ) (buffer : Bytes) (s : S)
      → start + offset / sector_size + count < word
      → (r : Bool × Bytes × S) × (read_bytes port sector_size room start offset count buffer s
          ≡ some r)
        × Fetched (start * sector_size + offset) count 0 buffer s r
  unfolding read_bytes
  read_bytes_lem room start offset count buffer s h = elim (Bool-cases (count == 0)) [
    | inl e ↦ (
      (true, buffer, s),
      rw e refl,
      record {
        same_disk = λ a. refl;
        fetched = λ _ k lt. absurd (ground arith);
        beside = λ x h. refl;
      },
    )
    | inr e ↦
        let sized : (sector_size == 0) ≡ false =
          ne→==_false sector_size 0 (omega (arith, w.size_pos)) in
        elim (Bool-cases room) [
          | inr no_room ↦ (
            (false, buffer, s),
            rw (e, sized, no_room) refl,
            record { same_disk = λ a. refl; fetched = λ h. cc; beside = λ x h. refl },
          )
          | inl has_room ↦
              let first : add64 start (offset / sector_size) ≡ start + offset / sector_size =
                omega arith in
              let whole : (start + offset / sector_size) * sector_size + offset % sector_size
                  ≡ start * sector_size + offset =
                grind (arith, div-add-mod offset sector_size) in
              let enter : read_bytes port sector_size room start offset count buffer s
                  ≡ read_loop port sector_size (count + 1) count (start + offset / sector_size)
                      (offset % sector_size) 0 buffer s =
                rw (e, sized, has_room, first) refl in
              let (r, run, f) =
                read_loop_lem (count + 1) count (start + offset / sector_size)
                  (offset % sector_size) 0 buffer s (mod-lt offset w.size_pos) (omega arith) h in
              (r, enter ∙ run, subst (λ z. Fetched z count 0 buffer s r) whole f)
        ]
  ]
