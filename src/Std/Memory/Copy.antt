-- ===== src/Std/Memory/Copy.antt =====
-- memcpy, eight bytes at a time and then the rest.
use plum_os.Prelude.{
  ℕ, zero, suc, ◌+◌, ◌-◌, ◌≤◌, ◌<◌, ◌≡◌, refl, sym, ap, ◌∙◌, ◌⊎◌, inl, inr, true, false, ◌&&◌, some,
  arith, ltb, leb, ltb→lt, Bool-cases,
}
use plum_os.Std.Memory.{Bytes, copy8, copy_words, memcpy, move_up}
use plum_os.Std.Memory.Move.{move_up_in, move_up_out}

copy8_in : (m : Bytes) (d s k : ℕ) → k < 8 → copy8 m d s (d + k) ≡ m (s + k)
copy8_in m d s k h =
    let at : d + k - d ≡ k = omega arith in
    let hit : (leb d (d + k) && ltb (d + k) (d + 8)) ≡ true = ground arith in
    rw hit (ap (λ z. m (s + z)) at)

copy8_out : (m : Bytes) (d s x : ℕ) → (x < d) ⊎ (d + 8 ≤ x) → copy8 m d s x ≡ m x
copy8_out m d s x h = let miss : (leb d x && ltb x (d + 8)) ≡ false = ground arith in rw miss refl

-- The bytes from `i` up to `j` are copied from `m` to `m'`, and all else is the same.
record Copied (d s i j : ℕ) (m m' : Bytes) : Type 0 where
  copied : (k : ℕ) → i ≤ k → k < j → m' (d + k) ≡ m (s + k)
  kept : (x : ℕ) → (x < d + i) ⊎ (d + j ≤ x) → m' x ≡ m x

module _ (d s size : ℕ) (apart : (d + size ≤ s) ⊎ (s + size ≤ d)) where
  one_word :
      (i j : ℕ) (m m' : Bytes)
      → i + 8 ≤ j
      → j ≤ size
      → Copied d s (i + 8) j (copy8 m (d + i) (s + i)) m'
      → Copied d s i j m m'
  one_word i j m m' lo hi c = record {
    copied = λ k a b. elim (Bool-cases (ltb k (i + 8))) [
      | inl e ↦
          let lt = ltb→lt k (i + 8) e in
          let to : d + i + (k - i) ≡ d + k = omega arith in
          let from : s + i + (k - i) ≡ s + k = omega arith in
          c.kept (d + k) (inl (omega arith))
          ∙ ap (copy8 m (d + i) (s + i)) (sym to)
          ∙ copy8_in m (d + i) (s + i) (k - i) (omega arith)
          ∙ ap m from
      | inr e ↦ c.copied k (ground arith) b ∙ copy8_out m (d + i) (s + i) (s + k) (ground arith)
    ];
    kept = λ x h. c.kept x (ground arith) ∙ copy8_out m (d + i) (s + i) x (ground arith);
  }

  copy_words_lem :
      (fuel i : ℕ) (m : Bytes)
      → i ≤ size
      → size < fuel + i
      → (j : ℕ) × (m' : Bytes) × (copy_words fuel i d s size m ≡ some (j, m'))
        × (i ≤ j)
        × (j ≤ size)
        × Copied d s i j m m'
  unfolding copy_words
  copy_words_lem zero i m le enough = absurd (omega arith)
  copy_words_lem (suc fuel) i m le enough = elim (Bool-cases (ltb (i + 8) size)) [
    | inl e ↦
        let lt = ltb→lt (i + 8) size e in
        let (j, m', run, lo, hi, c) =
          copy_words_lem fuel (i + 8) (copy8 m (d + i) (s + i)) (omega arith) (omega arith) in
        (j, m', rw e run, omega arith, hi, one_word i j m m' lo hi c)
    | inr e ↦ (
      i,
      m,
      rw e refl,
      omega arith,
      le,
      record { copied = λ k a b. absurd (omega arith); kept = λ x h. refl },
    )
  ]

memcpy-run :
    (dst src size : ℕ) (m : Bytes) (r : ℕ × Bytes)
    → copy_words (size + 1) 0 dst src size m ≡ some r
    → memcpy dst src size m ≡ some (move_up (size - r.0) r.0 dst src r.1)
unfolding memcpy
memcpy-run dst src size m r e = rw (e, memcpy) refl

-- Between ranges that do not overlap, `memcpy` ends, gives each byte of the destination what the
-- source has there, and leaves every other byte.
pub memcpy_lem :
    (dst src size : ℕ) (m : Bytes)
    → (dst + size ≤ src) ⊎ (src + size ≤ dst)
    → (m' : Bytes) × (memcpy dst src size m ≡ some m')
      × ((k : ℕ) → k < size → m' (dst + k) ≡ m (src + k))
      × ((x : ℕ) → (x < dst) ⊎ (dst + size ≤ x) → m' x ≡ m x)
memcpy_lem dst src size m apart =
    let (j, w, run, lo, hi, c) =
      copy_words_lem dst src size apart (size + 1) 0 m (omega arith) (omega arith) in
    (
      move_up (size - j) j dst src w,
      memcpy-run dst src size m (j, w) run,
      (λ k h. elim (Bool-cases (ltb k j)) [
        | inl e ↦
            let lt = ltb→lt k j e in
            move_up_out (size - j) j dst src w (dst + k) (inl (omega arith))
            ∙ c.copied k (omega arith) lt
        | inr e ↦
            move_up_in (size - j) j dst src w k (ground arith) (ground arith) (omega arith)
            ∙ c.kept (src + k) (ground arith)
      ]),
      (λ x h. move_up_out (size - j) j dst src w x (ground arith) ∙ c.kept x (ground arith)),
    )
