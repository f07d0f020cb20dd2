-- ===== src/Std/Vector/Unique.antt =====
-- Vectors of `std::unique_ptr`, src/libs/std/unique.hpp: an element is the pointer that it owns, and
-- the state is the list of the pointers that were deleted, the latest first.
use plum_os.Prelude.{
  ℕ, ◌+◌, ◌-◌, ◌<◌, ◌≡◌, refl, ap, ◌∙◌, ◌≢◌, false, Option, none, some, List, ◌∷◌, arith, ◌==◌,
  if◌then◌else◌, ne→==_false, length, get_elem?, set, length-set, get_or-set_self, sub64,
}
use plum_os.Std.Vector.{Lifetime, Vector, slot, swap_remove, pop_back, destroy_at, overwrite_at}
use plum_os.Std.Vector.Contents.{Holds, length-loaded, slot-loaded}
use plum_os.Std.Vector.Refine.{last_place, back_lem, last_there, move_back_to-some}

-- `delete ptr`, which does nothing at nullptr.
abbrev pub delete : ℕ → List ℕ → List ℕ
delete ptr deleted = if ptr == 0 then deleted else ptr ∷ deleted

-- The destructor and the move assignment delete the pointer; only a move resets it.
abbrev pub unique_ptr : Lifetime ℕ (List ℕ)
unique_ptr = record { size_of = 8; destroy = delete; overwrite = delete; moved = λ ptr. 0 }

destroy_at-some :
    (m : List (Option ℕ)) (i p : ℕ) (deleted : List ℕ)
    → slot m i ≡ some p
    → destroy_at unique_ptr m i deleted ≡ delete p deleted
destroy_at-some m i p deleted e = ap (λ o. elim o [ none ↦ deleted | some x ↦ delete x deleted ]) e

overwrite_at-some :
    (m : List (Option ℕ)) (i p : ℕ) (deleted : List ℕ)
    → slot m i ≡ some p
    → overwrite_at unique_ptr m i deleted ≡ delete p deleted
overwrite_at-some m i p deleted e = destroy_at-some m i p deleted e

-- `swap_remove` of an element that is not the last, in a vector of `unique_ptr`, deletes its
-- pointer twice: once by the destructor that it calls, and once more by the assignment to the
-- destroyed element.
pub swap_remove-twice :
    {v : Vector ℕ} {ptrs : List ℕ} (i p : ℕ) (deleted : List ℕ)
    → Holds v ptrs
    → i + 1 < length ptrs
    → get_elem? ptrs i ≡ some p
    → p ≢ 0
    → (swap_remove unique_ptr v i deleted).1 ≡ p ∷ p ∷ deleted
unfolding swap_remove pop_back
swap_remove-twice {v} {ptrs} i p deleted h lt e ne =
    let here : slot v.m_data i ≡ some p =
      ap (λ m. slot m i) h.slots ∙ slot-loaded ptrs h.spare i (omega arith) ∙ e in
    let place = last_place unique_ptr h (omega arith) in
    let (last, found) = last_there ptrs (omega arith) in
    let there = back_lem unique_ptr h (omega arith) ∙ found in
    let other : (i == sub64 v.m_size 1) ≡ false = ground (arith, place) in
    let live : (p == 0) ≡ false = ne→==_false p 0 ne in
    let some_left : (v.m_size == 0) ≡ false = ground (arith, h.counted) in
    let m = set v.m_data i (some last) in
    let n = length-set v.m_data i (some last) in
    let all = ap length h.slots ∙ length-loaded ptrs h.spare in
    let gone : slot (set m (sub64 v.m_size 1) (some 0)) (v.m_size - 1) ≡ some 0 =
      ap (λ k. slot (set m k (some 0)) (v.m_size - 1))
        (let to : sub64 v.m_size 1 ≡ v.m_size - 1 = omega (arith, place, h.counted) in to)
      ∙ get_or-set_self m (v.m_size - 1) (some 0) none (omega (arith, h.counted)) in
    let twice : delete p (delete p deleted) ≡ p ∷ p ∷ deleted = rw live refl in
    rw (other, move_back_to-some unique_ptr v i _ last there, some_left)
      (destroy_at-some _ (v.m_size - 1) 0 _ gone
        ∙ overwrite_at-some v.m_data i p _ here
        ∙ ap (delete p) (destroy_at-some v.m_data i p deleted here)
        ∙ twice)
