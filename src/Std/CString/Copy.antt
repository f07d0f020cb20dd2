-- ===== src/Std/CString/Copy.antt =====
-- strcpy into a buffer.
use mathlib.Core.Option
use plum_os.Prelude.{
  ℕ, zero, suc, ◌+◌, ◌<◌, ◌≡◌, refl, some, List, [], ◌∷◌, ◌++◌, arith, ne→==_false, length, set,
  drop,
}
use plum_os.Std.CString.{char_at, IsText, strcpy_from, strcpy}

abbrev behind : ℕ → ℕ × List ℕ → ℕ × List ℕ
behind x r = (suc r.0, x ∷ r.1)

one_on : (i : ℕ) → suc i + 1 ≡ suc (i + 1)
one_on i = omega arith

-- Behind the first byte of both, the loop does what it does from the start on the rest.
strcpy_from-suc :
    (fuel i x c : ℕ) (dst src : List ℕ)
    → strcpy_from fuel (suc i) (x ∷ dst) (c ∷ src)
      ≡ Option.map (behind x) (strcpy_from fuel i dst src)
unfolding strcpy_from
strcpy_from-suc zero i x c dst src = refl
strcpy_from-suc (suc fuel) i x c dst src =
    rw (one_on i, strcpy_from-suc fuel (i + 1) x c (set dst i (char_at src i)) src) (ground arith)

strcpy_from_lem :
    (fuel : ℕ) (dst src : List ℕ)
    → IsText src
    → length src < fuel
    → length src < length dst
    → strcpy_from fuel 0 dst src ≡ some (length src, src ++ 0 ∷ drop (length src + 1) dst)
unfolding strcpy_from
strcpy_from_lem zero dst src t h k = absurd (omega arith)
strcpy_from_lem (suc fuel) [] src t h k = absurd (omega arith)
strcpy_from_lem (suc fuel) (x ∷ dst) [] t h k = refl
strcpy_from_lem (suc fuel) (x ∷ dst) (c ∷ src) t h k =
    let e : length src + 1 ≡ suc (length src) = omega arith in
    let e' : suc (length src) + 1 ≡ suc (suc (length src)) = omega arith in
    rw (
      ne→==_false c 0 (omega arith),
      strcpy_from-suc fuel 0 c c dst src,
      strcpy_from_lem fuel dst src t.1 (omega arith) (omega arith),
      e,
      e',
    )

-- `strcpy` of a text into a buffer with room for it and its terminator ends, returns the length of
-- the text, and writes the text and the terminator and nothing behind them.
pub strcpy_lem :
    (dst src : List ℕ)
    → IsText src
    → length src < length dst
    → strcpy dst src ≡ some (length src, src ++ 0 ∷ drop (length src + 1) dst)
unfolding strcpy
strcpy_lem dst src t h = strcpy_from_lem (length src + 1) dst src t (omega arith) h
