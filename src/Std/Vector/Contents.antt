-- ===== src/Std/Vector/Contents.antt =====
-- The values that a vector holds, and what the loops do to the slots.
use plum_os.Prelude.{
  ℕ, zero, suc, ◌+◌, ◌-◌, ◌≤◌, ◌<◌, ◌≡◌, refl, ap, ◌∙◌, inl, inr, Option, some, List, [], ◌∷◌, ◌++◌,
  arith, Option-cases, length, get_elem?, set, take, drop, word,
}
use plum_os.Std.Vector.{Lifetime, Vector, slot, shift_from, relocate_from}

module _ {A : Type 0} where
  -- The slots with these objects first.
  abbrev pub loaded : List A → List (Option A) → List (Option A)
  loaded [] spare = spare
  loaded (x ∷ xs) spare = some x ∷ loaded xs spare

  pub length-loaded :
      (xs : List A) (spare : List (Option A)) → length (loaded xs spare) ≡ length xs + length spare
  length-loaded [] spare = omega arith
  length-loaded (x ∷ xs) spare = omega (arith, length-loaded xs spare)

  pub loaded-append :
      (xs ys : List A) (spare : List (Option A))
      → loaded (xs ++ ys) spare ≡ loaded xs (loaded ys spare)
  loaded-append [] ys spare = refl
  loaded-append (x ∷ xs) ys spare = ap (◌∷◌ (some x)) (loaded-append xs ys spare)

  pub slot-loaded :
      (xs : List A) (spare : List (Option A)) (i : ℕ)
      → i < length xs
      → slot (loaded xs spare) i ≡ get_elem? xs i
  slot-loaded [] spare i h = absurd (omega arith)
  slot-loaded (x ∷ xs) spare zero h = refl
  slot-loaded (x ∷ xs) spare (suc i) h = slot-loaded xs spare i (omega arith)

  pub set-loaded :
      (xs : List A) (spare : List (Option A)) (i : ℕ) (y : A)
      → i < length xs
      → set (loaded xs spare) i (some y) ≡ loaded (set xs i y) spare
  set-loaded [] spare i y h = absurd (omega arith)
  set-loaded (x ∷ xs) spare zero y h = refl
  set-loaded (x ∷ xs) spare (suc i) y h = ap (◌∷◌ (some x)) (set-loaded xs spare i y (omega arith))

  -- An object made in the first spare slot.
  pub set-loaded_end :
      (xs : List A) (s : Option A) (spare : List (Option A)) (y : A)
      → set (loaded xs (s ∷ spare)) (length xs) (some y) ≡ loaded (xs ++ y ∷ []) spare
  set-loaded_end [] s spare y = refl
  set-loaded_end (x ∷ xs) s spare y = ap (◌∷◌ (some x)) (set-loaded_end xs s spare y)

  -- A vector holds these values, in its first slots.
  pub record Holds (v : Vector A) (xs : List A) : Type 0 where
    pub spare : List (Option A)
    pub slots : v.m_data ≡ loaded xs spare
    pub counted : v.m_size ≡ length xs
    pub measured : v.m_capacity ≡ length xs + length spare
    pub small : v.m_capacity < word

  abbrev pub remove_at : List A → ℕ → List A
  remove_at [] i = []
  remove_at (x ∷ xs) zero = xs
  remove_at (x ∷ xs) (suc i) = x ∷ remove_at xs i

  pub length-remove_at :
      (xs : List A) (i : ℕ) → i < length xs → length (remove_at xs i) + 1 ≡ length xs
  length-remove_at [] i h = absurd (omega arith)
  length-remove_at (x ∷ xs) zero h = omega arith
  length-remove_at (x ∷ xs) (suc i) h = omega (arith, length-remove_at xs i (omega arith))

  pub take-set : (xs : List A) (k : ℕ) (y : A) → take k (set xs k y) ≡ take k xs
  take-set [] k y = refl
  take-set (x ∷ xs) zero y = refl
  take-set (x ∷ xs) (suc k) y = ap (◌∷◌ x) (take-set xs k y)

module _ {A W : Type 0} (life : Lifetime A W) where
  relocate_from-cons :
      (n i : ℕ) (a b : Option A) (old new : List (Option A)) (w : W)
      → relocate_from life n (suc i) (a ∷ old) (b ∷ new) w
        ≡ (b ∷ (relocate_from life n i old new w).0, (relocate_from life n i old new w).1)
  unfolding relocate_from
  relocate_from-cons zero i a b old new w = refl
  relocate_from-cons (suc n) i a b old new w = elim (Option-cases (slot old i)) [
    | inl e ↦ rw (e, relocate_from) refl
    | inr (x, e) ↦
        rw (e, relocate_from) (relocate_from-cons n (suc i) a b old (set new i (some x)) _)
  ]

  -- The loop of `reserve` copies all values.
  pub relocate_from_lem :
      (xs : List A) (spare blank : List (Option A)) (w : W)
      → length xs ≤ length blank
      → (relocate_from life (length xs) 0 (loaded xs spare) blank w).0
        ≡ loaded xs (drop (length xs) blank)
  unfolding relocate_from
  relocate_from_lem [] spare blank w h = refl
  relocate_from_lem (x ∷ xs) spare [] w h = absurd (omega arith)
  relocate_from_lem (x ∷ xs) spare (b ∷ blank) w h =
      ap (λ r. r.0) (relocate_from-cons (length xs) 0 (some x) (some x) (loaded xs spare) blank _)
      ∙ ap (◌∷◌ (some x)) (relocate_from_lem xs spare blank _ (omega arith))

  shift_from-cons :
      (n i : ℕ) (a : Option A) (m : List (Option A)) (w : W)
      → shift_from life n (suc i) (a ∷ m) w
        ≡ (a ∷ (shift_from life n i m w).0, (shift_from life n i m w).1)
  unfolding shift_from
  shift_from-cons zero i a m w = refl
  shift_from-cons (suc n) i a m w = elim (Option-cases (slot m (suc i))) [
    | inl e ↦ rw (e, shift_from) refl
    | inr (x, e) ↦ rw (e, shift_from) (shift_from-cons n (suc i) a _ _)
  ]

  shift_first :
      (x : A) (xs : List A) (spare : List (Option A)) (w : W)
      → (stale : Option A) × ((shift_from life (length xs) 0 (some x ∷ loaded xs spare) w).0
          ≡ loaded xs (stale ∷ spare))
  unfolding shift_from
  shift_first x [] spare w = (some x, refl)
  shift_first x (y ∷ xs) spare w =
      let (stale, ih) = shift_first (life.moved y) xs spare (life.overwrite x w) in
      (stale, ap (λ r. r.0) (shift_from-cons (length xs) 0 (some y) _ _) ∙ ap (◌∷◌ (some y)) ih)

  -- The loop of `erase` closes the gap, and leaves an object behind the last.
  pub shift_from_lem :
      (xs : List A) (i : ℕ) (spare : List (Option A)) (w : W)
      → i < length xs
      → (stale : Option A) × ((shift_from life (length xs - 1 - i) i (loaded xs spare) w).0
          ≡ loaded (remove_at xs i) (stale ∷ spare))
  shift_from_lem [] i spare w h = absurd (omega arith)
  shift_from_lem (x ∷ xs) zero spare w h =
      let n : length (x ∷ xs) - 1 - 0 ≡ length xs = omega arith in rw n (shift_first x xs spare w)
  shift_from_lem (x ∷ xs) (suc i) spare w h =
      let n : length (x ∷ xs) - 1 - suc i ≡ length xs - 1 - i = omega arith in
      let (stale, ih) = shift_from_lem xs i spare w (omega arith) in
      (
        stale,
        rw n (ap (λ r. r.0) (shift_from-cons (length xs - 1 - i) i (some x) _ w))
            ∙ ap (◌∷◌ (some x)) ih,
      )
