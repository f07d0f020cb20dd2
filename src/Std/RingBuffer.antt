-- ===== src/Std/RingBuffer.antt =====
-- src/libs/std/Ring_Buffer.hpp: a ring over `size` cells that keeps one of them empty. `head` is
-- where the next value is written, `tail` where the next is read; both are uint32_t.
pub mod Queue
pub mod Refine
mod Tests
use plum_os.Prelude.{
  ℕ, zero, suc, ◌+◌, ◌%◌, ◌^◌, Bool, true, false, Option, none, List, ◌==◌, if◌then◌else◌,
  get_elem?, set, replicate,
}

pub record RingBuffer {ℓ} (A : Type ℓ) : Type ℓ where
  pub cells : List A
  pub head : ℕ
  pub tail : ℕ

-- uint32_t addition, then the remainder.
abbrev pub step : ℕ → ℕ → ℕ
step size i = (i + 1) % 2 ^ 32 % size

-- `for (i = 0; i < size; i++) data[i] = {}`, with `n` rounds left.
pub reset_cells {ℓ} : {A : Type ℓ} → ℕ → ℕ → A → List A → List A
reset_cells zero i d cells = cells
reset_cells (suc n) i d cells = reset_cells n (i + 1) d (set cells i d)

module _ {ℓ} {A : Type ℓ} (size : ℕ) where
  pub empty : RingBuffer A → Bool
  empty r = r.tail == r.head

  pub full : RingBuffer A → Bool
  full r = step size r.head == r.tail

  -- The array with every cell value-initialised, here to `d`.
  pub fresh : A → RingBuffer A
  fresh d = record { cells = replicate size d; head = 0; tail = 0 }

  pub clear : A → RingBuffer A → RingBuffer A
  unfolding reset_cells
  clear d r = record { cells = reset_cells size 0 d r.cells; head = 0; tail = 0 }

  pub push : RingBuffer A → A → Bool × RingBuffer A
  push r value =
      let next = step size r.head in
      if next == r.tail
      then (false, r)
      else (true, record r { cells = set r.cells r.head value; head = next })

  -- The option is what is written through `out`.
  pub pop : RingBuffer A → Bool × Option A × RingBuffer A
  pop r =
      if r.tail == r.head
      then (false, none, r)
      else (true, get_elem? r.cells r.tail, record r { tail = step size r.tail })
