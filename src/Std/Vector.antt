-- ===== src/Std/Vector.antt =====
-- src/libs/std/vector.hpp. The storage behind `m_data` is a list of slots, `none` where no object was
-- ever made, and `[]` for nullptr; it has `m_capacity` slots unless the size of the block wraps around
-- in `reserve`, and a store behind the last slot is undefined behaviour and does nothing here. What constructors, destructors and assignments of
-- the elements do beside the value is a parameter, `Lifetime`. A `malloc` that returns nullptr
-- makes every call below undefined and is left out, and so is the release of the old storage.
pub mod Contents
pub mod Refine
pub mod Run
pub mod Unique
mod Tests
use plum_os.Prelude.{
  ℕ, zero, suc, ◌-◌, ◌*◌, ◌/◌, ◌%◌, min, Bool, Option, none, some, List, [], leb, ◌==◌,
  if◌then◌else◌, get_or, set, replicate, word, add64, sub64,
}
use plum_os.Kernel.Heap.{align16}

-- `sizeof(T)`, what `~T()` does, what an assignment does to the object that it overwrites, and what
-- `std::move` leaves behind.
pub record Lifetime (A W : Type 0) : Type 0 where
  pub size_of : ℕ
  pub destroy : A → W → W
  pub overwrite : A → W → W
  pub moved : A → A

pub record Vector (A : Type 0) : Type 0 where
  pub m_data : List (Option A)
  pub m_size : ℕ
  pub m_capacity : ℕ

abbrev pub empty_vector : {A : Type 0} → Vector A
empty_vector = record { m_data = []; m_size = 0; m_capacity = 0 }

module _ {A : Type 0} where
  abbrev pub slot : List (Option A) → ℕ → Option A
  slot m i = get_or m i none

  pub capacity : Vector A → ℕ
  capacity v = v.m_capacity

  abbrev pub size : Vector A → ℕ
  size v = v.m_size

  unfoldable pub is_empty : Vector A → Bool
  is_empty v = v.m_size == 0

  -- `operator[]`; a slot with no object is undefined behaviour.
  unfoldable pub at : Vector A → ℕ → Option A
  at v index = slot v.m_data index

  unfoldable pub back : Vector A → Option A
  back v = slot v.m_data (sub64 v.m_size 1)

  -- The move constructor: the new vector, and what is left of the other.
  pub move_from : Vector A → Vector A × Vector A
  move_from other = (other, empty_vector)

module _ {A W : Type 0} (life : Lifetime A W) where
  abbrev pub destroy_at : List (Option A) → ℕ → W → W
  destroy_at m i w = elim (slot m i) [ none ↦ w | some x ↦ life.destroy x w ]

  abbrev pub overwrite_at : List (Option A) → ℕ → W → W
  overwrite_at m i w = elim (slot m i) [ none ↦ w | some x ↦ life.overwrite x w ]

  -- The loop over `~T()`, at index `i` with `n` rounds left.
  unfoldable pub destroy_from : ℕ → ℕ → List (Option A) → W → W
  destroy_from zero i m w = w
  destroy_from (suc n) i m w = destroy_from n (suc i) m (destroy_at m i w)

  unfoldable pub clear : Vector A → W → Vector A × W
  clear v w = (record v { m_size = 0 }, destroy_from v.m_size 0 v.m_data w)

  unfoldable pub release : Vector A → W → Vector A × W
  unfolding clear
  release v w = let (v', w') = clear v w in (record v' { m_data = []; m_capacity = 0 }, w')

  -- The move assignment to `v` from another vector: the new value of both.
  pub move_assign : Vector A → Vector A → W → (Vector A × Vector A) × W
  move_assign v other w = ((other, empty_vector), destroy_from v.m_size 0 v.m_data w)

  -- The loop of `erase`, at index `i` with `n` rounds left.
  unfoldable pub shift_from : ℕ → ℕ → List (Option A) → W → List (Option A) × W
  shift_from zero i m w = (m, w)
  shift_from (suc n) i m w = elim (slot m (suc i)) [
    | none ↦ (m, w)
    | some x ↦
        shift_from n (suc i) (set (set m i (some x)) (suc i) (some (life.moved x)))
          (overwrite_at m i w)
  ]

  unfoldable pub erase : Vector A → ℕ → W → Vector A × W
  erase v index w =
      let (m, w') =
        shift_from (sub64 v.m_size 1 - index) index v.m_data (destroy_at v.m_data index w) in
      (record v { m_data = m; m_size = sub64 v.m_size 1 }, w')

  unfoldable pub pop_back : Vector A → W → Vector A × W
  pop_back v w =
      if v.m_size == 0
      then (v, w)
      else (record v { m_size = v.m_size - 1 }, destroy_at v.m_data (v.m_size - 1) w)

  -- `m_data[index] = std::move(back())`
  unfoldable pub move_back_to : Vector A → ℕ → W → Vector A × W
  unfolding back
  move_back_to v index w = elim (back v) [
    | none ↦ (v, w)
    | some x ↦ (
      record v {
        m_data = set (set v.m_data index (some x)) (sub64 v.m_size 1) (some (life.moved x));
      },
      overwrite_at v.m_data index w,
    )
  ]

  unfoldable pub swap_remove : Vector A → ℕ → W → Vector A × W
  swap_remove v index w =
      if index == sub64 v.m_size 1
      then pop_back v w
      else let (v', w') = move_back_to v index (destroy_at v.m_data index w) in pop_back v' w'

  -- The loop of `reserve`, which makes each new object and destroys the one that it was made from.
  unfoldable pub relocate_from : ℕ → ℕ → List (Option A) → List (Option A) → W → List (Option A) × W
  relocate_from zero i old new w = (new, w)
  relocate_from (suc n) i old new w = elim (slot old i) [
    | none ↦ (new, w)
    | some x ↦ relocate_from n (suc i) old (set new i (some x)) (life.destroy (life.moved x) w)
  ]

  -- The places for an object that the block of `heap::malloc(sizeof(T) * new_size)` has, of the
  -- first `new_size`. The product is a size_t and wraps around, as the rounding of `malloc` does.
  unfoldable pub places : ℕ → ℕ
  places new_size = min new_size (align16 (life.size_of * new_size % word) / life.size_of)

  unfoldable pub reserve : Vector A → ℕ → W → Vector A × W
  reserve v new_size w =
      if leb new_size v.m_capacity
      then (v, w)
      else let (m, w') = relocate_from v.m_size 0 v.m_data (replicate (places new_size) none) w in
        (record v { m_data = m; m_capacity = new_size }, w')

  unfoldable pub shrink_to_fit : Vector A → W → Vector A × W
  shrink_to_fit v w =
      if v.m_size == v.m_capacity
      then (v, w)
      else if v.m_size == 0
      then (record v { m_data = []; m_capacity = 0 }, w)
      else reserve v v.m_size w

  -- `x` is a parameter by value, destroyed at the end.
  unfoldable pub push_back : Vector A → A → W → Vector A × W
  push_back v x w =
      let (v', w') =
        if v.m_size == v.m_capacity
        then reserve v (if v.m_capacity == 0 then 1 else v.m_capacity * 2 % word) w
        else (v, w) in
      (
        record v' { m_data = set v'.m_data v'.m_size (some x); m_size = add64 v'.m_size 1 },
        life.destroy (life.moved x) w',
      )
