-- ===== src/Kernel/Heap/Tests.antt =====
-- Runs of the allocator on a heap of 4096 bytes at 65536.
use plum_os.Prelude.{
  ℕ, ◌%◌, ◌<◌, ◌≡◌, refl, ◌≢◌, ◌⊎◌, true, false, some, List, [], ◌∷◌, ◌++◌, arith,
}
use plum_os.Kernel.Heap.{
  Memory, Heap, heap_init, malloc, malloc_from, take_block, split_block, set_prev, free,
}
use plum_os.Kernel.Heap.Layout.{Cell, Holds}
use plum_os.Kernel.Heap.Malloc.{Refused, Allocated, malloc_lem}
use plum_os.Kernel.Heap.Free.{give_back, free_lem}
use plum_os.Kernel.Heap.Tidy.{IsTidy, malloc-IsTidy, free-IsTidy, free-malloc}
use plum_os.Kernel.Heap.Regions.{Region, HandsOut, regions, malloc-HandsOut, free-regions}
use plum_os.Kernel.Heap.Sums.{heap_init-IsTidy, malloc_wraps}

abbrev blank : Memory
blank = λ a. record { size = 0; free = false; next = 0; prev = 0 }

abbrev small : Heap
small = heap_init blank 4096 65536

abbrev one_block : List Cell
one_block = record { size = 4064; free = true } ∷ []

small-IsTidy : IsTidy small one_block
small-IsTidy = heap_init-IsTidy blank 4096 65536 refl refl (omega arith) (omega arith) (omega arith)

-- The heap after `malloc(100)`: the block is split, 112 bytes are taken and 3920 are left.
abbrev with_100 : Heap
with_100 = record small { memory = take_block small.memory 65536 112 }

abbrev in_use : Cell
in_use = record { size = 112; free = false }

abbrev left_over : Cell
left_over = record { size = 3920; free = true }

malloc_100 : malloc small 100 ≡ some (65568, with_100)
unfolding malloc malloc_from heap_init
malloc_100 = refl

with_100-IsTidy : IsTidy with_100 (in_use ∷ left_over ∷ [])
unfolding take_block split_block set_prev heap_init
with_100-IsTidy = record {
  holds = record {
    placed = (refl, (refl, tt));
    head = refl;
    filled = refl;
    low = omega arith;
    high = omega arith;
  };
  merged = ((λ h. cc), ((λ _. tt), tt));
  aligned = (refl, (refl, tt));
  start = refl;
}

-- With 4080 of its 4096 bytes asked for, nothing is left for the header.
malloc_full : malloc small 4080 ≡ some (0, small)
unfolding malloc malloc_from heap_init
malloc_full = refl

-- A second request goes behind the first; the first block, once free, is used again.
malloc_again :
    malloc with_100 16
    ≡ some (65712, record with_100 { memory = take_block with_100.memory 65680 16 })
unfolding malloc malloc_from take_block split_block set_prev heap_init
malloc_again = refl

malloc-HandsOut_example : HandsOut small one_block 100 65568 with_100
malloc-HandsOut_example =
    malloc-HandsOut small one_block 100 65568 with_100 small-IsTidy.holds malloc_100 (omega arith)

malloc_lem_example : Refused small one_block 100 ⊎ Allocated small one_block 100
malloc_lem_example = malloc_lem small one_block 100 small-IsTidy.holds

free_lem_example :
    (h' : Heap) × (free with_100 65568 ≡ some h')
    × (h'.heap_start ≡ 65536)
    × Holds h' (give_back [] in_use (left_over ∷ []))
unfolding heap_init
free_lem_example = free_lem with_100 [] in_use (left_over ∷ []) with_100-IsTidy.holds

free-malloc_example : (h'' : Heap) × (free with_100 65568 ≡ some h'') × IsTidy h'' one_block
free-malloc_example =
    free-malloc small one_block 100 65568 with_100 small-IsTidy malloc_100 (omega arith)

malloc-IsTidy_example :
    (p : ℕ) × (h' : Heap) × (cs' : List Cell) × (malloc with_100 16 ≡ some (p, h'))
    × (p % 16 ≡ 0)
    × (h'.heap_start ≡ 65536)
    × IsTidy h' cs'
unfolding heap_init
malloc-IsTidy_example = malloc-IsTidy with_100 (in_use ∷ left_over ∷ []) 16 with_100-IsTidy

free-IsTidy_example :
    (h' : Heap) × (free with_100 65568 ≡ some h')
    × (h'.heap_start ≡ 65536)
    × IsTidy h' (give_back [] in_use (left_over ∷ []))
unfolding heap_init
free-IsTidy_example = free-IsTidy with_100 [] in_use (left_over ∷ []) with_100-IsTidy

free-regions_example :
    (h' : Heap) × (blocks : List Cell) × (xs ys : List Region) × (free with_100 65568 ≡ some h')
    × Holds h' blocks
    × (regions 65536 (in_use ∷ left_over ∷ []) ≡ xs ++ (65568, 112) ∷ ys)
    × (regions 65536 blocks ≡ xs ++ ys)
unfolding heap_init
free-regions_example = free-regions with_100 [] in_use (left_over ∷ []) with_100-IsTidy.holds refl

malloc_wraps_example :
    (p : ℕ) × (h' : Heap) × (malloc small 18446744073709551615 ≡ some (p, h'))
    × (p ≢ 0)
    × (4096 < 18446744073709551615)
unfolding heap_init
malloc_wraps_example =
    malloc_wraps small one_block 18446744073709551615 small-IsTidy.holds (omega arith) (omega arith)
      (λ n. let e = n.0 in cc)
