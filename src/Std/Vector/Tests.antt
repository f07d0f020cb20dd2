-- ===== src/Std/Vector/Tests.antt =====
-- Vectors of numbers, and of pointers that are deleted with their owner.
use plum_os.Prelude.{ℕ, ◌^◌, ◌≡◌, refl, some, [], ◌∷◌, arith}
use plum_os.Std.Vector.{Vector, places, swap_remove}
use plum_os.Std.Vector.Contents.{Holds}
use plum_os.Std.Vector.Run.{push, apply, perform, perform_refines}
use plum_os.Std.Vector.Unique.{unique_ptr, swap_remove-twice}

abbrev three : Vector ℕ
three = record { m_data = some 7 ∷ some 8 ∷ some 9 ∷ []; m_size = 3; m_capacity = 3 }

three-Holds : Holds three (7 ∷ 8 ∷ 9 ∷ [])
three-Holds = record {
  spare = [];
  slots = refl;
  counted = refl;
  measured = refl;
  small = omega arith;
}

-- A push that has to make room.
perform_refines_example : Holds (perform unique_ptr (push 5) three []).0 (7 ∷ 8 ∷ 9 ∷ 5 ∷ [])
unfolding apply
perform_refines_example =
    perform_refines unique_ptr (push 5) [] three-Holds (omega arith) (omega arith) refl

swap_remove-twice_example : (swap_remove unique_ptr three 0 []).1 ≡ 7 ∷ 7 ∷ []
swap_remove-twice_example =
    swap_remove-twice 0 7 [] three-Holds (omega arith) refl (λ e. absurd (omega arith))

-- For 2^61 pointers `malloc` is asked for 0 bytes.
no_places : places unique_ptr (2 ^ 61) ≡ 0
unfolding places
no_places = refl
