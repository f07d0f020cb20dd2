-- ===== src/Std/CString/Tests.antt =====
-- Runs on short texts: "a" is 97, "b" 98.
use plum_os.Prelude.{ℕ, ◌≡◌, refl, ◌↔◌, some, List, [], ◌∷◌, arith}
use plum_os.Std.CString.{IsText, strcmp, strcmp_from, same, less}
use plum_os.Std.CString.Compare.{order, strcmp_lem}

abbrev ab : List ℕ
ab = 97 ∷ 98 ∷ []

abbrev b : List ℕ
b = 98 ∷ []

ab-IsText : IsText ab
ab-IsText = (omega arith, (omega arith, tt))

b-IsText : IsText b
b-IsText = (omega arith, tt)

strcmp-ab-b : strcmp ab b ≡ some (less 1)
unfolding strcmp strcmp_from
strcmp-ab-b = refl

strcmp_lem_example : (strcmp ab b ≡ some (order ab b)) × ((strcmp ab b ≡ some same) ↔ (ab ≡ b))
strcmp_lem_example = strcmp_lem ab b ab-IsText b-IsText
