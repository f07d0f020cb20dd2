-- ===== src/Std/Vector/Run.antt =====
-- Any calls on a vector against the same calls on a list.
use mathlib.Core.Option.{some-injective}
use plum_os.Prelude.{
  ℕ, ◌+◌, ◌-◌, ◌*◌, ◌≤◌, ◌<◌, ◌≡◌, subst, inl, inr, Option, none, some, List, [], ◌∷◌, ◌++◌, arith,
  ltb, leb, if◌then◌else◌, ltb→lt, Bool-cases, Option-cases, length, get_elem?, word,
}
use plum_os.Std.Vector.{
  Lifetime, Vector, clear, erase, pop_back, swap_remove, reserve, shrink_to_fit, push_back,
}
use plum_os.Std.Vector.Contents.{Holds, remove_at}
use plum_os.Std.Vector.Refine.{
  front, swap_out, clear-Holds, erase-Holds, pop_back-Holds, swap_remove-Holds, reserve-Holds,
  shrink_to_fit-Holds, push_back-Holds,
}

pub data Call (A : Type 0) : Type 0 where
  push : A → Call A
  pop : Call A
  remove swap_away grow : ℕ → Call A
  reset shrink : Call A

module _ {A : Type 0} (size_of : ℕ) where
  -- What a call does to the values; `none` for an index that is out of range and for a number of
  -- objects whose bytes do not fit a size_t, with 15 more to round them up.
  unfoldable pub apply : Call A → List A → Option (List A)
  apply (push x) xs = some (xs ++ x ∷ [])
  apply pop xs = some (front xs)
  apply (remove i) xs = if ltb i (length xs) then some (remove_at xs i) else none
  apply (swap_away i) xs =
      if ltb i (length xs)
      then elim (get_elem? xs (length xs - 1)) [ none ↦ none | some y ↦ some (swap_out xs i y) ]
      else none
  apply (grow n) xs = if leb (size_of * n + 16) word then some xs else none
  apply reset xs = some []
  apply shrink xs = some xs

module _ {A W : Type 0} (life : Lifetime A W) where
  unfoldable pub perform : Call A → Vector A → W → Vector A × W
  perform (push x) v w = push_back life v x w
  perform pop v w = pop_back life v w
  perform (remove i) v w = erase life v i w
  perform (swap_away i) v w = swap_remove life v i w
  perform (grow n) v w = reserve life v n w
  perform reset v w = clear life v w
  perform shrink v w = shrink_to_fit life v w

  -- What destructors and assignments of the elements do has no effect on the values: take a vector
  -- that holds some values, where elements have a size and twice the capacity and one more of them,
  -- with 16 bytes, fit 2^64 bytes. A call on it, at an index in range where it takes one and for a
  -- number of objects that fit 2^64 bytes in the same way where it takes one, leaves a vector that
  -- holds what the same call on the list of the values gives.
  pub perform_refines :
      (call : Call A) {v : Vector A} {xs ys : List A} (w : W)
      → Holds v xs
      → 0 < life.size_of
      → life.size_of * (2 * v.m_capacity + 1) + 16 ≤ word
      → apply life.size_of call xs ≡ some ys
      → Holds (perform call v w).0 ys
  unfolding apply perform
  perform_refines (push x) {v} w h pos room e =
      subst (Holds _) (some-injective _ _ e) (push_back-Holds life h pos room x w)
  perform_refines pop w h pos room e =
      subst (Holds _) (some-injective _ _ e) (pop_back-Holds life h w)
  perform_refines (remove i) {v} {xs} w h pos room e = elim (Bool-cases (ltb i (length xs))) [
    | inl q ↦
        subst (Holds _) (some-injective _ _ (rw q at e)) (erase-Holds life h i w (ltb→lt _ _ q))
    | inr q ↦ let e' = rw q at e in cc
  ]
  perform_refines (swap_away i) {v} {xs} w h pos room e = elim (Bool-cases (ltb i (length xs))) [
    | inl q ↦ elim (Option-cases (get_elem? xs (length xs - 1))) [
      | inl n ↦ let e' = rw (q, n) at e in cc
      | inr (y, n) ↦
          subst (Holds _) (some-injective _ _ (rw (q, n) at e))
            (swap_remove-Holds life h i y w (ltb→lt _ _ q) n)
    ]
    | inr q ↦ let e' = rw q at e in cc
  ]
  perform_refines (grow n) {v} {xs} w h pos room e =
      elim (Bool-cases (leb (life.size_of * n + 16) word)) [
        | inl q ↦
            subst (Holds _) (some-injective _ _ (rw q at e))
              (reserve-Holds life h n w pos (ground arith))
        | inr q ↦ let e' = rw q at e in cc
      ]
  perform_refines reset w h pos room e =
      subst (Holds _) (some-injective _ _ e) (clear-Holds life h w)
  perform_refines shrink w h pos room e =
      subst (Holds _) (some-injective _ _ e) (shrink_to_fit-Holds life h w)
