-- ===== src/Kernel/Heap/Sums.antt =====
-- `heap_init`, and the sums of `check_heap`, `check_free_heap` and `check_used_heap`.
use plum_os.Prelude.{
  ℕ, zero, suc, ◌+◌, ◌-◌, ◌*◌, ◌%◌, ◌≤◌, ◌<◌, ◌≡◌, refl, ap, ◌∙◌, subst, ◌≢◌, inl, inr, Bool, true,
  not, some, List, [], ◌∷◌, arith, if◌then◌else◌, ne→==_false, length, word, add64, sub64,
}
use plum_os.Kernel.Heap.{
  Memory, Heap, block_bytes, fuel_of, heap_init, sum_from, check_heap, check_free_heap,
  check_used_heap, malloc, align16,
}
use plum_os.Kernel.Heap.Layout.{Cell, past, link, Fore, span, fuel_of-lt, Holds, update_self}
use plum_os.Kernel.Heap.Malloc.{NoneFits, malloc_lem}
use plum_os.Kernel.Heap.Tidy.{IsTidy}

-- From an address that is not below 16, with a size that has room for a header, both multiples of
-- 16 and with an end below 2^64, `heap_init` makes a tidy heap of one free block, all of it but the
-- header.
pub heap_init-IsTidy :
    (m : Memory) (size addr : ℕ)
    → addr % 16 ≡ 0
    → size % 16 ≡ 0
    → 16 ≤ addr
    → block_bytes ≤ size
    → addr + size < word
    → IsTidy (heap_init m size addr) (record { size = size - block_bytes; free = true } ∷ [])
unfolding heap_init
heap_init-IsTidy m size addr ha hs low big high =
    let bytes : sub64 size block_bytes ≡ size - block_bytes = omega arith in
    record {
      holds = record {
        placed = (update_self m addr _ ∙ rw bytes, tt);
        head = refl;
        filled = omega arith;
        low = low;
        high = omega arith;
      };
      merged = ((λ _. tt), tt);
      aligned = (omega arith, tt);
      start = ha;
    }

-- The bytes of the blocks that `counts` accepts.
pub bytes_where : (Bool → Bool) → List Cell → ℕ
bytes_where counts [] = 0
bytes_where counts (c ∷ cs) = (if counts c.free then c.size else 0) + bytes_where counts cs

bytes_where-le : (counts : Bool → Bool) (cs : List Cell) → bytes_where counts cs ≤ span cs
unfolding bytes_where
bytes_where-le counts [] = omega arith
bytes_where-le counts (c ∷ cs) = ground (arith, bytes_where-le counts cs)

sum_from_lem :
    (counts : Bool → Bool) (fuel : ℕ) (m : Memory) (p a acc : ℕ) (cs : List Cell)
    → length cs < fuel
    → 0 < a
    → acc + bytes_where counts cs < word
    → Fore m p a cs
    → sum_from counts fuel m (link cs a) acc ≡ some (acc + bytes_where counts cs)
unfolding sum_from bytes_where
sum_from_lem counts zero m p a acc cs enough pos room f = absurd (omega arith)
sum_from_lem counts (suc fuel) m p a acc [] enough pos room f = ap some (omega arith)
sum_from_lem counts (suc fuel) m p a acc (c ∷ cs) enough pos room f =
    rw (ne→==_false a 0 (omega arith), f.0)
      (sum_from_lem counts fuel m a (past c a) (if counts c.free then add64 acc c.size else acc) cs
          (omega arith) (omega arith) (ground arith) f.1
        ∙ ap some (ground arith))

bytes_parts :
    (cs : List Cell)
    → (bytes_where not cs + bytes_where (λ free. free) cs ≡ bytes_where (λ _. true) cs)
      × (bytes_where (λ _. true) cs + block_bytes * length cs ≡ span cs)
unfolding bytes_where
bytes_parts [] = (refl, refl)
bytes_parts (c ∷ cs) = ground (arith, bytes_parts cs)

summed :
    (counts : Bool → Bool) (h : Heap) (cs : List Cell)
    → Holds h cs
    → sum_from counts (fuel_of h) h.memory h.heap_head 0 ≡ some (bytes_where counts cs)
summed counts h cs v =
    let low = v.low in
    ap (λ x. sum_from counts (fuel_of h) h.memory x 0) v.head
    ∙ sum_from_lem counts (fuel_of h) h.memory 0 h.heap_start 0 cs (fuel_of-lt v) (omega arith)
        (omega (arith, bytes_where-le counts cs, v.filled, v.high)) v.placed
    ∙ ap some (omega arith)

-- In a heap that holds a list of blocks the three sums end. The sums of `check_used_heap` and
-- `check_free_heap` make up the one of `check_heap`, and this with a header for each block makes up
-- the heap.
pub check_heap_lem :
    (h : Heap) (cs : List Cell)
    → Holds h cs
    → (used free all : ℕ) × (check_used_heap h ≡ some used)
      × (check_free_heap h ≡ some free)
      × (check_heap h ≡ some all)
      × (used + free ≡ all)
      × (all + block_bytes * length cs ≡ h.heap_end - h.heap_start)
unfolding check_heap check_free_heap check_used_heap
check_heap_lem h cs v = (
  bytes_where not cs,
  bytes_where (λ free. free) cs,
  bytes_where (λ _. true) cs,
  summed not h cs v,
  summed (λ free. free) h cs v,
  summed (λ _. true) h cs v,
  (bytes_parts cs).0,
  omega (arith, (bytes_parts cs).1, v.filled),
)

-- A request of one of the last 15 sizes of uint64_t wraps to 0 bytes when it is rounded up. If some
-- block is free, `malloc` then returns an address although the request is larger than the heap.
pub malloc_wraps :
    (h : Heap) (cs : List Cell) (n : ℕ)
    → Holds h cs
    → word ≤ n + 15
    → n < word
    → ¬ NoneFits 0 cs
    → (p : ℕ) × (h' : Heap) × (malloc h n ≡ some (p, h'))
      × (p ≢ 0)
      × (h.heap_end - h.heap_start < n)
malloc_wraps h cs n v lo hi some_fits = elim (malloc_lem h cs n v) [
  | inl g ↦
      let wrapped : align16 n ≡ 0 = omega arith in
      absurd (some_fits (subst (λ k. NoneFits k cs) wrapped g.full))
  | inr g ↦
      let low = v.low in
      let high = v.high in
      (h.heap_start + span g.before + block_bytes, g.heap, g.run, omega arith, omega arith)
]
