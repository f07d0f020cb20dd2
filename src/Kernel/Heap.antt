-- ===== src/Kernel/Heap.antt =====
-- src/kernel/Memory/heap.cpp: the kernel's allocator, a doubly linked list of block headers that
-- stand in the memory that they manage. A pointer is the address it holds and 0 is nullptr; a
-- header is what a dereferenced `Block*` reads, so the store is a function from addresses.
-- Addresses and sizes are uint64_t. The messages that the code prints are left out.
pub mod Layout
pub mod Malloc
pub mod Free
pub mod Tidy
pub mod Regions
pub mod Sums
mod Tests
use plum_os.Prelude.{
  ℕ, zero, suc, ◌+◌, ◌-◌, ◌*◌, ◌/◌, Bool, true, false, not, ◌&&◌, Option, none, some, leb, ◌==◌,
  if◌then◌else◌, add64, sub64,
}

pub record Block : Type 0 where
  pub size : ℕ
  pub free : Bool
  pub next : ℕ
  pub prev : ℕ

abbrev pub Memory : Type 0
Memory = ℕ → Block

-- The globals `heap_head`, `heap_start` and `heap_end`, with the headers.
pub record Heap : Type 0 where
  pub memory : Memory
  pub heap_head : ℕ
  pub heap_start : ℕ
  pub heap_end : ℕ

-- `sizeof(Block)`: 8 + 1 (padded to 8) + 8 + 8 bytes.
abbrev pub block_bytes : ℕ
block_bytes = 32

-- `(size + 15) & ~15ULL`
abbrev pub align16 : ℕ → ℕ
align16 size = add64 size 15 / 16 * 16

abbrev pub update : Memory → ℕ → Block → Memory
update m a b = λ x. if x == a then b else m x

-- `if (p) p->prev = q;`
unfoldable pub set_prev : Memory → ℕ → ℕ → Memory
set_prev m p q = if p == 0 then m else update m p (record (m p) { prev = q })

unfoldable pub heap_init : Memory → ℕ → ℕ → Heap
heap_init m size heap_addr = record {
  memory =
      update m heap_addr
        (record { size = sub64 size block_bytes; free = true; next = 0; prev = 0 });
  heap_head = heap_addr;
  heap_start = heap_addr;
  heap_end = add64 heap_addr size;
}

-- The split in the loop of `malloc`: the bytes behind the first `size` become a free block.
unfoldable pub split_block : Memory → ℕ → ℕ → Memory
split_block m block size =
    let b = m block in
    let new_block = add64 (add64 block block_bytes) size in
    let m₁ = update m new_block (record {
      size = sub64 (sub64 b.size size) block_bytes;
      free = true;
      next = b.next;
      prev = block;
    }) in
    let m₂ = set_prev m₁ b.next new_block in
    update m₂ block (record (m₂ block) { size = size; next = new_block })

-- The body of the `if` in that loop: split if what is left over is enough for a block, and take it.
unfoldable pub take_block : Memory → ℕ → ℕ → Memory
take_block m block size =
    let m' =
      if leb (add64 (add64 size block_bytes) 16) (m block).size
      then split_block m block size
      else m in
    update m' block (record (m' block) { free = false })

-- The loop of `malloc`, from `block` on. `none`: the fuel ran out.
unfoldable pub malloc_from : ℕ → Memory → ℕ → ℕ → Option (ℕ × Memory)
malloc_from zero m block size = none
malloc_from (suc fuel) m block size =
    let rest = malloc_from fuel m (m block).next size in
    if block == 0
    then some (0, m)
    else if (m block).free && leb size (m block).size
    then some (add64 block block_bytes, take_block m block size)
    else rest

-- Headers take 32 bytes each, so the list has at most this many.
abbrev pub fuel_of : Heap → ℕ
fuel_of h = (h.heap_end - h.heap_start) / block_bytes + 1

unfoldable pub malloc : Heap → ℕ → Option (ℕ × Heap)
malloc h size = elim (malloc_from (fuel_of h) h.memory h.heap_head (align16 size)) [
  | none ↦ none
  | some (p, m) ↦ some (p, record h { memory = m })
]

-- The first loop of `free`: the next block is merged while it is free.
unfoldable pub merge_right : ℕ → Memory → ℕ → Option Memory
merge_right zero m old = none
merge_right (suc fuel) m old =
    let b = m old in
    let next = m b.next in
    let m₁ =
      update m old
        (record b { size = add64 b.size (add64 next.size block_bytes); next = next.next }) in
    let rest = merge_right fuel (set_prev m₁ next.next old) old in
    if not (b.next == 0) && next.free then rest else some m

-- The second loop: the block is merged into the one before while that is free.
unfoldable pub merge_left : ℕ → Memory → ℕ → Option Memory
merge_left zero m old = none
merge_left (suc fuel) m old =
    let b = m old in
    let before = m b.prev in
    let m₁ =
      update m b.prev
        (record before { size = add64 before.size (add64 b.size block_bytes); next = b.next }) in
    let rest = merge_left fuel (set_prev m₁ b.next b.prev) b.prev in
    if not (b.prev == 0) && before.free then rest else some m

unfoldable pub free_block : ℕ → Memory → ℕ → Option Memory
free_block fuel m old =
    elim (merge_right fuel (update m old (record (m old) { free = true })) old) [
      | none ↦ none
      | some m' ↦ merge_left fuel m' old
    ]

unfoldable pub free : Heap → ℕ → Option Heap
free h ptr =
    if ptr == 0 then some h else elim (free_block (fuel_of h) h.memory (sub64 ptr block_bytes)) [
      | none ↦ none
      | some m ↦ some (record h { memory = m })
    ]

-- `check_heap`, `check_free_heap` and `check_used_heap` sum the sizes of the blocks that `counts`
-- accepts.
unfoldable pub sum_from : (Bool → Bool) → ℕ → Memory → ℕ → ℕ → Option ℕ
sum_from counts zero m b acc = none
sum_from counts (suc fuel) m b acc =
    let rest =
      sum_from counts fuel m (m b).next (if counts (m b).free then add64 acc (m b).size else acc) in
    if b == 0 then some acc else rest

unfoldable pub check_heap : Heap → Option ℕ
check_heap h = sum_from (λ _. true) (fuel_of h) h.memory h.heap_head 0

unfoldable pub check_free_heap : Heap → Option ℕ
check_free_heap h = sum_from (λ free. free) (fuel_of h) h.memory h.heap_head 0

unfoldable pub check_used_heap : Heap → Option ℕ
check_used_heap h = sum_from not (fuel_of h) h.memory h.heap_head 0
