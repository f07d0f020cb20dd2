-- ===== src/Drivers/Network/Common/Checksum.antt =====
-- The checksum makes the sum of the words a multiple of 2^16 - 1.
use plum_os.Prelude.{
  ℕ, suc, ◌+◌, ◌-◌, ◌*◌, ◌/◌, ◌%◌, ◌≤◌, ◌<◌, ◌≡◌, refl, ap, ◌∙◌, inl, inr, true, false, some, List,
  [], ◌∷◌, arith, ltb, ◌==◌, ltb→lt, Bool-cases,
}
use plum_os.Drivers.Network.Common.{add_words, fold_sum, complement, checksum}

-- The sum of the words, exactly.
abbrev pub word_sum : List ℕ → ℕ
word_sum [] = 0
word_sum (a ∷ []) = a
word_sum (a ∷ b ∷ rest) = a + b * 256 + word_sum rest

add_words_lem :
    (bytes : List ℕ) (sum : ℕ)
    → sum + word_sum bytes < 4294967296
    → add_words bytes sum ≡ sum + word_sum bytes
unfolding add_words
add_words_lem [] sum h = omega arith
add_words_lem (a ∷ []) sum h = omega arith
add_words_lem (a ∷ b ∷ rest) sum h =
    let here : (sum + (a + b * 256)) % 4294967296 ≡ sum + (a + b * 256) = omega arith in
    ap (add_words rest) here ∙ add_words_lem rest (sum + (a + b * 256)) (omega arith) ∙ omega arith

fold_done : (fuel sum : ℕ) → sum < 65536 → fold_sum (suc fuel) sum ≡ some sum
unfolding fold_sum
fold_done fuel sum h = let e : (sum / 65536 == 0) ≡ true = ground arith in rw e refl

fold_round :
    (fuel sum : ℕ)
    → 65536 ≤ sum
    → fold_sum (suc fuel) sum ≡ fold_sum fuel (sum % 65536 + sum / 65536)
unfolding fold_sum
fold_round fuel sum h = let e : (sum / 65536 == 0) ≡ false = ground arith in rw e refl

-- What folding leaves.
record Folded (sum r : ℕ) : Type 0 where
  small : r < 65536
  same : r % 65535 ≡ sum % 65535

-- A round more.
fold_more :
    (fuel sum bound : ℕ)
    → ((s : ℕ) → s ≤ bound → (r : ℕ) × (fold_sum fuel s ≡ some r) × Folded s r)
    → 0 < fuel
    → sum % 65536 + sum / 65536 ≤ bound
    → (r : ℕ) × (fold_sum (suc fuel) sum ≡ some r) × Folded sum r
fold_more fuel sum bound rest pos h = elim (Bool-cases (ltb sum 65536)) [
  | inl lt ↦
      let small : sum < 65536 = ltb→lt _ _ lt in
      (sum, fold_done fuel sum small, record { small = small; same = refl })
  | inr ge ↦
      let (r, run, f) = rest (sum % 65536 + sum / 65536) h in
      (
        r,
        fold_round fuel sum (ground arith) ∙ run,
        record { small = f.small; same = f.same ∙ omega arith },
      )
]

fold_1 : (s : ℕ) → s ≤ 65535 → (r : ℕ) × (fold_sum 1 s ≡ some r) × Folded s r
fold_1 s h = (s, fold_done 0 s (omega arith), record { small = omega arith; same = refl })

-- Four rounds are enough for 32 bits.
fold_4 : (s : ℕ) → s ≤ 4294967295 → (r : ℕ) × (fold_sum 4 s ≡ some r) × Folded s r
fold_4 s h =
    fold_more 3 s 131070
      (λ x a.
        fold_more 2 x 65536 (λ y b. fold_more 1 y 65535 fold_1 (omega arith) (omega arith))
          (omega arith) (omega arith))
      (omega arith) (omega arith)

-- `checksum` of bytes whose words have a sum below 2^32 ends, with 16 bits, and the sum of the words
-- and the checksum is a multiple of 2^16 - 1, which is what a receiver tests.
pub checksum_lem :
    (bytes : List ℕ)
    → word_sum bytes < 4294967296
    → (c : ℕ) × (checksum bytes ≡ some c) × (c < 65536) × ((word_sum bytes + c) % 65535 ≡ 0)
unfolding checksum
checksum_lem bytes h =
    let (r, run, f) = fold_4 (word_sum bytes) (omega arith) in
    let sum : add_words bytes 0 ≡ word_sum bytes =
      add_words_lem bytes 0 (omega arith) ∙ omega arith in
    (
      65535 - r,
      ap (λ s. complement (fold_sum 4 s)) sum ∙ ap complement run,
      omega arith,
      omega (arith, f.small, f.same),
    )
