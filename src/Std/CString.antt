-- ===== src/Std/CString.antt =====
-- src/libs/std/string.cpp: strcmp, strncmp, strlen and strcpy. A `const char*` is the list of the
-- bytes before the end of its storage, and a byte past that reads as the terminator 0; a text with
-- no 0 among its bytes is `IsText`. The `int` counters are natural numbers: texts have fewer than
-- 2^31 bytes.
pub mod Compare
pub mod Copy
mod Tests
use plum_os.Prelude.{
  ℕ, zero, suc, ◌+◌, ◌-◌, ◌<◌, Bool, true, false, not, Option, none, some, List, [], ◌∷◌, ltb, ◌==◌,
  if◌then◌else◌, length, get_or, set,
}

-- `text[i]`
abbrev pub char_at : List ℕ → ℕ → ℕ
char_at s i = get_or s i 0

abbrev pub IsText : List ℕ → Type 0
IsText [] = Unit {0}
IsText (c ∷ s) = (0 < c) × IsText s

-- What `strcmp` returns: the sign of `c1 - c2`, and its size.
pub data Difference : Type 0 where
  same : Difference
  less more : ℕ → Difference

abbrev pub difference : ℕ → ℕ → Difference
difference c₁ c₂ = if c₁ == c₂ then same else if ltb c₁ c₂ then less (c₂ - c₁) else more (c₁ - c₂)

-- The do loop of `strcmp`, from index `i`; `none`: the fuel ran out.
unfoldable pub strcmp_from : ℕ → ℕ → List ℕ → List ℕ → Option Difference
strcmp_from zero i s₁ s₂ = none
strcmp_from (suc fuel) i s₁ s₂ =
    let c₁ = char_at s₁ i in
    let c₂ = char_at s₂ i in
    let rest = strcmp_from fuel (i + 1) s₁ s₂ in
    if c₁ == 0 then some (difference c₁ c₂) else if c₁ == c₂ then rest else some (difference c₁ c₂)

unfoldable pub strcmp : List ℕ → List ℕ → Option Difference
unfolding strcmp_from
strcmp s₁ s₂ = strcmp_from (length s₁ + 1) 0 s₁ s₂

-- `n` rounds are left, from index `i`.
unfoldable pub strncmp_from : ℕ → ℕ → List ℕ → List ℕ → Bool
strncmp_from zero i s₁ s₂ = true
strncmp_from (suc n) i s₁ s₂ =
    let rest = strncmp_from n (i + 1) s₁ s₂ in
    if not (char_at s₁ i == char_at s₂ i) then false else if char_at s₁ i == 0 then true else rest

unfoldable pub strncmp : List ℕ → List ℕ → ℕ → Bool
unfolding strncmp_from
strncmp s₁ s₂ n = strncmp_from n 0 s₁ s₂

unfoldable pub strlen_from : ℕ → ℕ → List ℕ → Option ℕ
strlen_from zero len s = none
strlen_from (suc fuel) len s =
    let rest = strlen_from fuel (len + 1) s in if char_at s len == 0 then some len else rest

unfoldable pub strlen : List ℕ → Option ℕ
unfolding strlen_from
strlen s = strlen_from (length s + 1) 0 s

-- The loop of `strcpy`, with what it has written so far.
unfoldable pub strcpy_from : ℕ → ℕ → List ℕ → List ℕ → Option (ℕ × List ℕ)
strcpy_from zero i dst src = none
strcpy_from (suc fuel) i dst src =
    let rest = strcpy_from fuel (i + 1) (set dst i (char_at src i)) src in
    if char_at src i == 0 then some (i, set dst i 0) else rest

unfoldable pub strcpy : List ℕ → List ℕ → Option (ℕ × List ℕ)
unfolding strcpy_from
strcpy dst src = strcpy_from (length src + 1) 0 dst src
