-- ===== src/Prelude/Words.antt =====
-- Arithmetic of size_t and uint64_t.
use Prim.Native.Nat.{ℕ, ◌+◌, ◌-◌, ◌*◌, ◌/◌, ◌%◌, ◌^◌, ◌<◌}
use mathlib.Core.Path.{◌≡◌, ap, ◌∙◌}
use native.Mathlib.Omega.{arith}
use native.Mathlib.Nat.{mul-add-div_right, mul-add-mod_self_right, div-eq_of_lt, mod-eq_of_lt}

abbrev pub word : ℕ
word = 2 ^ 64

abbrev pub add64 : ℕ → ℕ → ℕ
add64 a b = (a + b) % word

abbrev pub sub64 : ℕ → ℕ → ℕ
sub64 a b = (a + word - b) % word

-- Offset `o` of block `m`, in blocks of `b`.
pub block_of : (b m o : ℕ) → o < b → ((m * b + o) / b ≡ m) × ((m * b + o) % b ≡ o)
block_of b m o h =
    let pos : 0 < b = omega arith in
    (
      mul-add-div_right pos m o ∙ ap (λ z. m + z) (div-eq_of_lt h) ∙ omega arith,
      mul-add-mod_self_right m b o ∙ mod-eq_of_lt h,
    )
