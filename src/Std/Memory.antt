-- ===== src/Std/Memory.antt =====
-- src/libs/libc/memory.cpp: memcpy, memmove, memset and memcmp over a memory of bytes. Addresses do not wrap:
-- the ranges that the calls are given lie in the address space.
pub mod Move
pub mod Copy
mod Tests
use plum_os.Prelude.{
  ℕ, zero, suc, ◌+◌, ◌-◌, Bool, true, false, ◌&&◌, Option, none, some, ltb, leb, ◌==◌,
  if◌then◌else◌,
}

-- What is at each address.
abbrev pub Bytes : Type 0
Bytes = ℕ → ℕ

abbrev pub store : Bytes → ℕ → ℕ → Bytes
store m a v = λ x. if x == a then v else m x

-- The loop of `memmove` for `d < s`, at index `i` with `n` rounds left; the second loop of `memcpy`
-- does the same with pointers that it moves on.
unfoldable pub move_up : ℕ → ℕ → ℕ → ℕ → Bytes → Bytes
move_up zero i d s m = m
move_up (suc n) i d s m = move_up n (i + 1) d s (store m (d + i) (m (s + i)))

-- The other loop of `memmove`, which counts `i` down.
unfoldable pub move_down : ℕ → ℕ → ℕ → Bytes → Bytes
move_down zero d s m = m
move_down (suc i) d s m = move_down i d s (store m (d + i) (m (s + i)))

unfoldable pub memmove : ℕ → ℕ → ℕ → Bytes → Bytes
memmove dst src size m =
    let up = move_up size 0 dst src m in
    let down = move_down size dst src m in if ltb dst src then up else down

-- The loop of `memset`, at index `i` with `n` rounds left.
unfoldable pub fill_from : ℕ → ℕ → ℕ → ℕ → Bytes → Bytes
fill_from zero i d value m = m
fill_from (suc n) i d value m = fill_from n (i + 1) d value (store m (d + i) value)

unfoldable pub memset : ℕ → ℕ → ℕ → Bytes → Bytes
memset dst value size m = fill_from size 0 dst value m

-- The loop of `memcmp`, at index `i` with `n` rounds left; true means equal.
unfoldable pub equal_from : ℕ → ℕ → ℕ → ℕ → Bytes → Bool
equal_from zero i p₁ p₂ m = true
equal_from (suc n) i p₁ p₂ m =
    let rest = equal_from n (i + 1) p₁ p₂ m in if m (p₁ + i) == m (p₂ + i) then rest else false

unfoldable pub memcmp : ℕ → ℕ → ℕ → Bytes → Bool
memcmp src₁ src₂ size m = equal_from size 0 src₁ src₂ m

-- `*(uint64_t*)d = *(const uint64_t*)s`
abbrev pub copy8 : Bytes → ℕ → ℕ → Bytes
copy8 m d s = λ x. if leb d x && ltb x (d + 8) then m (s + (x - d)) else m x

-- The first loop of `memcpy`, at index `i`: the index where it ends. `none`: the fuel ran out.
unfoldable pub copy_words : ℕ → ℕ → ℕ → ℕ → ℕ → Bytes → Option (ℕ × Bytes)
copy_words zero i d s size m = none
copy_words (suc fuel) i d s size m =
    let rest = copy_words fuel (i + 8) d s size (copy8 m (d + i) (s + i)) in
    if ltb (i + 8) size then rest else some (i, m)

unfoldable pub memcpy : ℕ → ℕ → ℕ → Bytes → Option Bytes
memcpy dst src size m = elim (copy_words (size + 1) 0 dst src size m) [
  | none ↦ none
  | some r ↦ some (move_up (size - r.0) r.0 dst src r.1)
]
