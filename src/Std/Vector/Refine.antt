-- ===== src/Std/Vector/Refine.antt =====
-- Each operation of a vector against the same on a list of values.
use native.Mathlib.Nat.{le-div_iff_mul-le, mul-le-mul_right, mul-le-mul_left}
use plum_os.Prelude.{
  ℕ, suc, ◌+◌, ◌-◌, ◌*◌, ◌/◌, ◌%◌, ◌≤◌, ◌<◌, ◌≡◌, refl, sym, ap, ap₂, ◌∙◌, subst, ◌↔◌, ◌⊎◌, inl,
  inr, true, false, Option, none, some, List, [], ◌∷◌, ◌++◌, arith, leb, ◌==◌, if◌then◌else◌,
  Bool-cases, length, get_elem?, set, take, drop, replicate, length-append, length-set,
  length-replicate, length-take, length-drop, take-append-drop, word, add64, sub64,
}
use plum_os.Std.Vector.{
  Lifetime, places, Vector, slot, back, clear, erase, pop_back, move_back_to, swap_remove, reserve,
  shrink_to_fit, push_back, relocate_from, shift_from, destroy_at, overwrite_at, empty_vector,
}
use plum_os.Kernel.Heap.{align16}
use plum_os.Std.Vector.Contents.{
  loaded, length-loaded, loaded-append, slot-loaded, set-loaded, set-loaded_end, Holds, remove_at,
  length-remove_at, take-set, relocate_from_lem, shift_from_lem,
}

-- The last place is `n - 1`, also in size_t.
sub64-one : (n : ℕ) → 0 < n → n < word → sub64 n 1 ≡ n - 1
sub64-one n h k = omega arith

module _ {A : Type 0} where
  Spare-cases :
      (spare : List (Option A))
      → (spare ≡ []) ⊎ ((s : Option A) × (rest : List (Option A)) × (spare ≡ s ∷ rest))
  Spare-cases [] = inl refl
  Spare-cases (s ∷ rest) = inr (s, rest, refl)

  pub empty-Holds : Holds {A = A} empty_vector []
  empty-Holds = record {
    spare = [];
    slots = refl;
    counted = refl;
    measured = refl;
    small = omega arith;
  }

  -- The values but the last, `removelast`.
  abbrev pub front : List A → List A
  front xs = take (length xs - 1) xs

  -- What `swap_remove` leaves: the last value takes the place of the one at `i`.
  abbrev pub swap_out : List A → ℕ → A → List A
  swap_out xs i last = front (set xs i last)

  room : {v : Vector A} {xs : List A} → Holds v xs → length xs < word
  room h = omega (arith, h.measured, h.small)

  -- Fewer values in the same slots.
  fewer :
      {v : Vector A} {xs : List A} (k n : ℕ) (m : List (Option A)) (ys : List A)
      → (h : Holds v xs) → m ≡ loaded ys h.spare
      → length ys ≡ length xs
      → n ≡ k
      → k ≤ length ys
      → Holds (record { m_data = m; m_size = n; m_capacity = v.m_capacity }) (take k ys)
  fewer k n m ys h e same nk le =
      let lt = length-take k ys in
      let ld = length-drop k ys in
      let ll = length-loaded (drop k ys) h.spare in
      record {
        spare = loaded (drop k ys) h.spare;
        slots =
            e
            ∙ ap (λ l. loaded l h.spare) (sym (take-append-drop k ys))
            ∙ loaded-append (take k ys) (drop k ys) h.spare;
        counted = omega (arith, lt);
        measured = omega (arith, lt, ld, ll, h.measured);
        small = h.small;
      }

  front-set : (xs : List A) (k : ℕ) (y : A) → k ≡ length xs - 1 → front (set xs k y) ≡ front xs
  front-set xs k y e =
      ap (λ n. take (n - 1) (set xs k y)) (length-set xs k y)
      ∙ ap (λ n. take n (set xs k y)) (sym e)
      ∙ take-set xs k y
      ∙ ap (λ n. take n xs) e

  none_left : (xs : List A) → length xs ≡ 0 → [] ≡ xs
  none_left [] h = refl
  none_left (x ∷ xs) h = absurd (omega arith)

  front_none : (xs : List A) → length xs ≡ 0 → xs ≡ front xs
  front_none [] h = refl
  front_none (x ∷ xs) h = absurd (omega arith)

  pub last_there : (xs : List A) → 0 < length xs → (x : A) × (get_elem? xs (length xs - 1) ≡ some x)
  last_there [] h = absurd (omega arith)
  last_there (x ∷ []) h = (x, refl)
  last_there (x ∷ y ∷ xs) h =
      let n : length (x ∷ y ∷ xs) - 1 ≡ suc (length (y ∷ xs) - 1) = omega arith in
      let (z, e) = last_there (y ∷ xs) (omega arith) in (z, ap (get_elem? (x ∷ y ∷ xs)) n ∙ e)

module _ {A W : Type 0} (life : Lifetime A W) where
  pub below_word : (n : ℕ) → 0 < life.size_of → life.size_of * n + 16 ≤ word → n < word
  below_word n pos fits =
      let one : 1 ≤ life.size_of = pos in let least = mul-le-mul_right n one in omega arith

  -- A block whose size does not wrap around has room for all objects.
  pub places_lem : (n : ℕ) → 0 < life.size_of → life.size_of * n + 16 ≤ word → places life n ≡ n
  unfolding places
  places_lem n pos fits =
      let bytes : life.size_of * n % word ≡ life.size_of * n = omega arith in
      let rounded : n * life.size_of ≤ align16 (life.size_of * n) = omega arith in
      let law : (n ≤ align16 (life.size_of * n) / life.size_of)
          ↔ (n * life.size_of ≤ align16 (life.size_of * n)) =
        le-div_iff_mul-le pos in
      let enough = law.1 rounded in rw bytes (omega (arith, enough))

  module _ {v : Vector A} {xs : List A} (h : Holds v xs) where
    pub last_place : 0 < length xs → sub64 v.m_size 1 ≡ length xs - 1
    last_place pos = let big = room h in omega (arith, h.counted, sub64-one (length xs) pos big)

    pub back_lem : 0 < length xs → back v ≡ get_elem? xs (length xs - 1)
    unfolding back
    back_lem pos =
        ap₂ slot h.slots (last_place pos) ∙ slot-loaded xs h.spare (length xs - 1) (omega arith)

    pub clear-Holds : (w : W) → Holds (clear life v w).0 []
    unfolding clear
    clear-Holds w = fewer 0 0 v.m_data xs h h.slots refl refl (omega arith)

    pub pop_back-Holds : (w : W) → Holds (pop_back life v w).0 (front xs)
    unfolding pop_back
    pop_back-Holds w = elim (Bool-cases (v.m_size == 0)) [
      | inl e ↦
          let no_values : length xs ≡ 0 = ground (arith, h.counted) in
          rw e (subst (Holds v) (front_none xs no_values) h)
      | inr e ↦ rw e (
          fewer (length xs - 1) (v.m_size - 1) v.m_data xs h h.slots refl (omega (arith, h.counted))
            (omega arith))
    ]

    pub reserve-Holds :
        (n : ℕ) (w : W)
        → 0 < life.size_of
        → life.size_of * n + 16 ≤ word
        → Holds (reserve life v n w).0 xs
    unfolding reserve
    reserve-Holds n w pos lt = elim (Bool-cases (leb n v.m_capacity)) [
      | inl e ↦ rw e h
      | inr e ↦
          let k = places life n in
          let whole : k ≡ n = places_lem n pos lt in
          let blank : List (Option A) = replicate k none in
          let size : length blank ≡ n = length-replicate k none ∙ whole in
          let more : v.m_capacity < n = ground arith in
          let left = length-drop (length xs) blank in
          let fits : length xs ≤ length blank = omega (arith, h.measured) in
          rw e (record {
            spare = drop (length xs) blank;
            slots =
                ap₂ (λ c m. (relocate_from life c 0 m blank w).0) h.counted h.slots
                ∙ relocate_from_lem life xs h.spare blank w fits;
            counted = h.counted;
            measured = omega arith;
            small = below_word n pos lt;
          })
    ]

    -- The slot behind the values, once there is one.
    appended :
        (x : A)
        → length xs < v.m_capacity
        → Holds
            (record {
              m_data = set v.m_data v.m_size (some x);
              m_size = add64 v.m_size 1;
              m_capacity = v.m_capacity;
            })
            (xs ++ x ∷ [])
    appended x lt = elim (Spare-cases h.spare) [
      | inl e ↦ let n = ap length e in absurd (omega (arith, h.measured))
      | inr (s, rest, e) ↦
          let n = ap length e in
          let la = length-append xs (x ∷ []) in
          record {
            spare = rest;
            slots =
                ap₂ (λ m k. set m k (some x)) (h.slots ∙ ap (loaded xs) e) h.counted
                ∙ set-loaded_end xs s rest x;
            counted = omega (arith, h.counted, h.small);
            measured = omega (arith, h.measured);
            small = h.small;
          }
    ]

  pub move_back_to-some :
      (v : Vector A) (i : ℕ) (w : W) (x : A)
      → back v ≡ some x
      → move_back_to life v i w ≡ (
        record v {
          m_data = set (set v.m_data i (some x)) (sub64 v.m_size 1) (some (life.moved x));
        },
        overwrite_at life v.m_data i w,
      )
  unfolding move_back_to
  move_back_to-some v i w x e = rw (e, move_back_to) refl

  reserve_grows :
      (v : Vector A) (n : ℕ) (w : W) → v.m_capacity < n → (reserve life v n w).0.m_capacity ≡ n
  unfolding reserve
  reserve_grows v n w lt = let more : leb n v.m_capacity ≡ false = ground arith in rw more refl

  pub push_back-Holds :
      {v : Vector A} {xs : List A}
      → Holds v xs
      → 0 < life.size_of
      → life.size_of * (2 * v.m_capacity + 1) + 16 ≤ word
      → (x : A) (w : W) → Holds (push_back life v x w).0 (xs ++ x ∷ [])
  unfolding push_back
  push_back-Holds {v} {xs} h pos room x w = elim (Bool-cases (v.m_size == v.m_capacity)) [
    | inl e ↦
        let n : ℕ = if v.m_capacity == 0 then 1 else v.m_capacity * 2 % word in
        let small = below_word (2 * v.m_capacity + 1) pos room in
        let more : v.m_capacity < n = ground arith in
        let most : n ≤ 2 * v.m_capacity + 1 = ground arith in
        let bytes = mul-le-mul_left life.size_of most in
        let grown : (reserve life v n w).0.m_capacity ≡ n = reserve_grows v n w more in
        rw e (appended (reserve-Holds h n w pos (omega arith)) x (omega (arith, h.measured)))
    | inr e ↦
        let lt : length xs < v.m_capacity = ground (arith, h.measured, h.counted) in
        rw e (appended h x lt)
  ]

  module _ {v : Vector A} {xs : List A} (h : Holds v xs) where
    pub erase-Holds : (i : ℕ) (w : W) → i < length xs → Holds (erase life v i w).0 (remove_at xs i)
    unfolding erase
    erase-Holds i w lt =
        let last = last_place h (omega arith) in
        let w' = destroy_at life v.m_data i w in
        let (stale, run) = shift_from_lem life xs i h.spare w' lt in
        let one_less = length-remove_at xs i lt in
        record {
          spare = stale ∷ h.spare;
          slots = ap₂ (λ k m. (shift_from life (k - i) i m w').0) last h.slots ∙ run;
          counted = omega arith;
          measured = omega (arith, h.measured);
          small = h.small;
        }

    pub swap_remove-Holds :
        (i : ℕ) (last : A) (w : W)
        → i < length xs
        → get_elem? xs (length xs - 1) ≡ some last
        → Holds (swap_remove life v i w).0 (swap_out xs i last)
    unfolding swap_remove
    swap_remove-Holds i last w lt e =
        let place = last_place h (omega arith) in
        let there = back_lem h (omega arith) ∙ e in
        elim (Bool-cases (i == sub64 v.m_size 1)) [
          | inl q ↦
              let at : i ≡ length xs - 1 = ground (arith, place) in
              let same : front xs ≡ swap_out xs i last = sym (front-set xs i last at) in
              rw q (subst (Holds (pop_back life v w).0) same (pop_back-Holds h w))
          | inr q ↦
              let ys = set (set xs i last) (length xs - 1) (life.moved last) in
              let m =
                set (set v.m_data i (some last)) (sub64 v.m_size 1) (some (life.moved last)) in
              let n₁ = length-set xs i last in
              let n₂ = length-set (set xs i last) (length xs - 1) (life.moved last) in
              let v' : Vector A = record v { m_data = m } in
              let h' : Holds v' ys = record {
                spare = h.spare;
                slots =
                    ap₂ (λ d k. set (set d i (some last)) k (some (life.moved last))) h.slots place
                    ∙ ap (λ d. set d (length xs - 1) (some (life.moved last)))
                        (set-loaded xs h.spare i last lt)
                    ∙ set-loaded (set xs i last) h.spare (length xs - 1) (life.moved last)
                        (omega arith);
                counted = omega (arith, h.counted);
                measured = omega (arith, h.measured);
                small = h.small;
              } in
              let same : front ys ≡ swap_out xs i last =
                front-set (set xs i last) (length xs - 1) (life.moved last) (omega arith) in
              rw (q, move_back_to-some v i _ last there)
                (subst (Holds (pop_back life v' _).0) same (pop_back-Holds h' _))
        ]

    pub shrink_to_fit-Holds : (w : W) → Holds (shrink_to_fit life v w).0 xs
    unfolding shrink_to_fit reserve
    shrink_to_fit-Holds w = elim (Bool-cases (v.m_size == v.m_capacity)) [
      | inl e ↦ rw e h
      | inr e ↦ elim (Bool-cases (v.m_size == 0)) [
        | inl z ↦
            let zero_size : 0 ≡ length xs = ground (arith, h.counted) in
            rw (e, z)
              (record {
                spare = [];
                slots = ap (λ l. loaded l []) (none_left xs (sym zero_size));
                counted = h.counted;
                measured = omega arith;
                small = omega arith;
              })
        | inr z ↦
            let within : leb v.m_size v.m_capacity ≡ true = ground (arith, h.counted, h.measured) in
            rw (e, z, within) h
      ]
    ]

    -- `shrink_to_fit` gives nothing back unless the vector is empty.
    pub shrink_to_fit-capacity :
        (w : W) → 0 < v.m_size → (shrink_to_fit life v w).0.m_capacity ≡ v.m_capacity
    unfolding shrink_to_fit reserve
    shrink_to_fit-capacity w pos = ground (arith, h.counted, h.measured)
