-- ===== src/Drivers/Fat32/Directory/Terminated.antt =====
-- Names with a terminator in their array, as `has_end` and `strcmp` see them.
use plum_os.Prelude.{
  ℕ, zero, suc, ◌+◌, ◌≤◌, ◌<◌, ◌≡◌, refl, ap, ◌∙◌, inl, inr, true, some, List, arith, ◌==◌, ==_iff,
  Bool-cases,
}
use plum_os.Std.Memory.{Bytes}
use plum_os.Std.CString.{same, char_at, strcmp_from}
use plum_os.Drivers.LittleEndian.{bytes_at}
use plum_os.Drivers.Fat32.Directory.{has_end}

pub has_end-at : (n i k : ℕ) (l : Bytes) → i ≤ k → k < i + n → l k ≡ 0 → has_end n i l ≡ true
unfolding has_end
has_end-at zero i k l lo hi e = absurd (omega arith)
has_end-at (suc n) i k l lo hi e = elim (Bool-cases (l i == 0)) [
  | inl q ↦ rw q refl
  | inr q ↦ elim (Bool-cases (i == k)) [
    | inl q' ↦
        let same_at : l i ≡ 0 = ap l ((==_iff i k).0 q') ∙ e in
        let z : (l i == 0) ≡ true = ground arith in cc
    | inr q' ↦ rw q (has_end-at n (i + 1) k l (ground arith) (omega arith) e)
  ]
]

pub char_at-bytes_at : (n i j : ℕ) (l : Bytes) → j < n → char_at (bytes_at n l i) j ≡ l (i + j)
char_at-bytes_at zero i j l lt = absurd (omega arith)
char_at-bytes_at (suc n) i zero l lt = let z : i ≡ i + 0 = omega arith in ap l z
char_at-bytes_at (suc n) i (suc j) l lt =
    let z : suc i + j ≡ i + suc j = omega arith in
    char_at-bytes_at n (suc i) j l (omega arith) ∙ ap l z

-- Texts that agree up to a terminator are the same.
pub strcmp_from-agree :
    (fuel i k : ℕ) (s t : List ℕ)
    → i ≤ k
    → k < i + fuel
    → ((j : ℕ) → j ≤ k → char_at s j ≡ char_at t j)
    → char_at s k ≡ 0
    → strcmp_from fuel i s t ≡ some same
unfolding strcmp_from
strcmp_from-agree zero i k s t lo hi agree end = absurd (omega arith)
strcmp_from-agree (suc fuel) i k s t lo hi agree end =
    let equal : (char_at s i == char_at t i) ≡ true =
      (==_iff (char_at s i) (char_at t i)).1 (agree i lo) in
    elim (Bool-cases (char_at s i == 0)) [
      | inl q ↦ rw (q, equal) refl
      | inr q ↦ elim (Bool-cases (i == k)) [
        | inl q' ↦
            let at_end : char_at s i ≡ 0 = ap (char_at s) ((==_iff i k).0 q') ∙ end in
            let z : (char_at s i == 0) ≡ true = ground arith in cc
        | inr q' ↦
            rw (q, equal)
              (strcmp_from-agree fuel (i + 1) k s t (ground arith) (omega arith) agree end)
      ]
    ]
