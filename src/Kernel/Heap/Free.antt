-- ===== src/Kernel/Heap/Free.antt =====
-- `free` against merging in the list of blocks.
use plum_os.Prelude.{
  ℕ, zero, suc, ◌+◌, ◌-◌, ◌<◌, ◌≡◌, refl, sym, ◌∙◌, inl, inr, true, false, some, List, [], ◌∷◌,
  arith, if◌then◌else◌, ne→==_false, Bool-cases, length, word, add64, sub64,
}
use plum_os.Kernel.Heap.{
  Memory, Heap, update, set_prev, block_bytes, merge_right, merge_left, free_block, free, fuel_of,
}
use plum_os.Kernel.Heap.Layout.{
  Cell, node, past, link, link_back, Fore, Back, span, rejoin, Fore-update, Back-update,
  Fore-set_prev, Back-set_prev, set_prev_other, update_self, rejoin-Fore, Back-start, step_right,
  span-rejoin, link-rejoin, length-rejoin, fuel_of-lt, Holds,
}

-- Two neighbours as one block.
abbrev pub joined : Cell → Cell → Cell
joined c d = record { size = c.size + (d.size + block_bytes); free = c.free }

-- A block with the free blocks that follow it, and what is behind those.
unfoldable pub absorb : Cell → List Cell → Cell × List Cell
absorb c [] = (c, [])
absorb c (d ∷ cs) = if d.free then absorb (joined c d) cs else (c, d ∷ cs)

-- The list after a block is merged into the free blocks before it, nearest first.
unfoldable pub settle : List Cell → Cell → List Cell → List Cell
settle [] c cs = c ∷ cs
settle (d ∷ r) c cs = if d.free then settle r (joined d c) cs else rejoin (d ∷ r) (c ∷ cs)

-- The list after the block at a zipper is given back.
unfoldable pub give_back : List Cell → Cell → List Cell → List Cell
give_back r c cs = let (c', cs') = absorb (record c { free = true }) cs in settle r c' cs'

-- A list in memory, from the position after some of its blocks.
pub unzip :
    (m : Memory) (s : ℕ) (c : Cell) (r cs : List Cell)
    → 0 < s
    → Fore m 0 s (rejoin r (c ∷ cs))
    → Back m s (s + span r) r × Fore m (link_back r (s + span r)) (s + span r) (c ∷ cs)
unzip m s c [] cs pos f = let e : s + 0 ≡ s = omega arith in rw e (refl, f)
unzip m s c (d ∷ r) cs pos f =
    let (b, g) = unzip m s d r (c ∷ cs) pos f in
    let stand = step_right m s (s + span r) d r (c ∷ cs) b g in
    let e : past d (s + span r) ≡ s + span (d ∷ r) = omega arith in
    rw (← e) (stand.0 (λ q. cc q), stand.1)

-- Merging the block at `a` with the one after it.
merged : Memory → ℕ → Cell → Cell → List Cell → Memory
merged m a c d cs =
    set_prev
      (update m a (record (m a) { size = (joined c d).size; next = link cs (past d (past c a)) }))
      (link cs (past d (past c a))) a

module _ (m : Memory) (s a : ℕ) (c d : Cell) (r cs : List Cell) (b : Back m s a r)
    (f : Fore m (link_back r a) a (c ∷ d ∷ cs)) where
  merged_lem :
      Back (merged m a c d cs) s a r × Fore (merged m a c d cs) (link_back r a) a (joined c d ∷ cs)
  unfolding merged
  merged_lem =
      let after = past d (past c a) in
      let e : past (joined c d) a ≡ after = omega arith in
      (
        Back-set_prev _ s a after a r cs (omega arith) (omega arith)
            (Back-update m s a a _ r (omega arith) b),
        rw e (
          set_prev_other _ a after a cs (omega arith)
              ∙ rw (
                update_self m a (record (m a) { size = (joined c d).size; next = link cs after }),
                f.0,
              ),
          Fore-set_prev _ (past c a) a after cs (omega arith)
              (Fore-update m (past c a) after a _ cs (omega arith) f.1.1),
        ),
      )

pub absorb_free :
    (c d : Cell) (cs : List Cell) → d.free ≡ true → absorb c (d ∷ cs) ≡ absorb (joined c d) cs
unfolding absorb
absorb_free c d cs h = rw h

pub absorb_used : (c d : Cell) (cs : List Cell) → d.free ≡ false → absorb c (d ∷ cs) ≡ (c, d ∷ cs)
unfolding absorb
absorb_used c d cs h = rw h

module _ (fuel : ℕ) (m : Memory) (p a : ℕ) (c : Cell) where
  merge_right_end : Fore m p a (c ∷ []) → merge_right (suc fuel) m a ≡ some m
  unfolding merge_right
  merge_right_end f = rw f.0

  module _ (d : Cell) (cs : List Cell) (pos : 0 < a) (f : Fore m p a (c ∷ d ∷ cs)) where
    merge_right_stop : d.free ≡ false → merge_right (suc fuel) m a ≡ some m
    unfolding merge_right
    merge_right_stop h = rw (f.0, ne→==_false (past c a) 0 (omega arith), f.1.0, h)

    merge_right_step :
        d.free ≡ true
        → past c a + span (d ∷ cs) < word
        → merge_right (suc fuel) m a ≡ merge_right fuel (merged m a c d cs) a
    unfolding merge_right merged
    merge_right_step h room =
        let size : add64 c.size (add64 d.size block_bytes) ≡ (joined c d).size = omega arith in
        rw (f.0, ne→==_false (past c a) 0 (omega arith), f.1.0, h, size)

-- The first loop merges the block with the free blocks that follow it, and ends.
merge_right_lem :
    (fuel : ℕ) (m : Memory) (s a : ℕ) (c : Cell) (r cs : List Cell)
    → length cs < fuel
    → 0 < a
    → past c a + span cs < word
    → Back m s a r
    → Fore m (link_back r a) a (c ∷ cs)
    → (m' : Memory) × (merge_right fuel m a ≡ some m')
      × Back m' s a r
      × Fore m' (link_back r a) a ((absorb c cs).0 ∷ (absorb c cs).1)
merge_right_lem zero m s a c r cs enough pos room b f = absurd (omega arith)
merge_right_lem (suc fuel) m s a c r [] enough pos room b f =
    (m, merge_right_end fuel m (link_back r a) a c f, b, unfold absorb in f)
merge_right_lem (suc fuel) m s a c r (d ∷ cs) enough pos room b f = elim (Bool-cases d.free) [
  | inl h ↦
      let (b', f') = merged_lem m s a c d r cs b f in
      let (m', run, b₂, f₂) =
        merge_right_lem fuel (merged m a c d cs) s a (joined c d) r cs (omega arith) pos
          (omega arith) b' f' in
      (
        m',
        merge_right_step fuel m (link_back r a) a c d cs pos f h room ∙ run,
        b₂,
        rw (absorb_free c d cs h) f₂,
      )
  | inr h ↦
      (m, merge_right_stop fuel m (link_back r a) a c d cs pos f h, b, rw (absorb_used c d cs h) f)
]

pub settle_free :
    (d c : Cell) (r cs : List Cell) → d.free ≡ true → settle (d ∷ r) c cs ≡ settle r (joined d c) cs
unfolding settle
settle_free d c r cs h = rw h

pub settle_used :
    (d c : Cell) (r cs : List Cell) → d.free ≡ false → settle (d ∷ r) c cs ≡ rejoin (d ∷ r) (c ∷ cs)
unfolding settle
settle_used d c r cs h = rw h

module _ (fuel : ℕ) (m : Memory) (a : ℕ) (c : Cell) (cs : List Cell) where
  merge_left_end : Fore m 0 a (c ∷ cs) → merge_left (suc fuel) m a ≡ some m
  unfolding merge_left
  merge_left_end f = rw f.0

  module _ (d : Cell) (p : ℕ) (at : block_bytes + d.size < a)
      (before : m (a - (block_bytes + d.size)) ≡ node d p a)
      (f : Fore m (a - (block_bytes + d.size)) a (c ∷ cs)) where
    merge_left_stop : d.free ≡ false → merge_left (suc fuel) m a ≡ some m
    unfolding merge_left
    merge_left_stop h =
        rw (f.0, ne→==_false (a - (block_bytes + d.size)) 0 (omega arith), before, h)

    merge_left_step :
        d.free ≡ true
        → past c a < word
        → merge_left (suc fuel) m a
          ≡ merge_left fuel
              (merged m (a - (block_bytes + d.size)) d c cs)
              (a - (block_bytes + d.size))
    unfolding merge_left merged
    merge_left_step h room =
        let size : add64 d.size (add64 c.size block_bytes) ≡ (joined d c).size = omega arith in
        let e : past d (a - (block_bytes + d.size)) ≡ a = omega arith in
        rw (f.0, ne→==_false (a - (block_bytes + d.size)) 0 (omega arith), before, h, size, e)

-- The second loop merges the block into the free blocks before it, and ends.
merge_left_lem :
    (fuel : ℕ) (m : Memory) (s a : ℕ) (c : Cell) (r cs : List Cell)
    → length r < fuel
    → 0 < s
    → past c a < word
    → Back m s a r
    → Fore m (link_back r a) a (c ∷ cs)
    → (m' : Memory) × (merge_left fuel m a ≡ some m') × Fore m' 0 s (settle r c cs)
merge_left_lem zero m s a c r cs enough pos room b f = absurd (omega arith)
merge_left_lem (suc fuel) m s a c [] cs enough pos room b f =
    (m, merge_left_end fuel m a c cs f, unfold settle in rw (← b) f)
merge_left_lem (suc fuel) m s a c (d ∷ r) cs enough pos room b f =
    let at = a - (block_bytes + d.size) in
    let e : past d at ≡ a = omega arith in
    let le = Back-start m s at r b.2 in
    elim (Bool-cases d.free) [
      | inl h ↦
          let (b', f') = merged_lem m s at d c r cs b.2 (rw e (b.1, f)) in
          let e' : past (joined d c) at ≡ past c a = omega arith in
          let (m', run, done) =
            merge_left_lem fuel (merged m at d c cs) s at (joined d c) r cs (omega arith) pos
              (rw e' room) b' f' in
          (
            m',
            merge_left_step fuel m a c cs d (link_back r at) (omega arith) b.1 f h room ∙ run,
            rw (settle_free d c r cs h) done,
          )
      | inr h ↦ (
        m,
        merge_left_stop fuel m a c cs d (link_back r at) (omega arith) b.1 f h,
        rw (settle_used d c r cs h) (rejoin-Fore m s a c (d ∷ r) cs b f),
      )
    ]

pub span-absorb :
    (c : Cell) (cs : List Cell) → span ((absorb c cs).0 ∷ (absorb c cs).1) ≡ span (c ∷ cs)
unfolding absorb
span-absorb c [] = refl
span-absorb c (d ∷ cs) = ground (arith, span-absorb (joined c d) cs)

pub span-settle :
    (r : List Cell) (c : Cell) (cs : List Cell) → span (settle r c cs) ≡ span r + span (c ∷ cs)
unfolding settle
span-settle [] c cs = omega arith
span-settle (d ∷ r) c cs =
    ground (arith, span-settle r (joined d c) cs, span-rejoin (d ∷ r) (c ∷ cs))

link-settle : (r : List Cell) (c : Cell) (cs : List Cell) (s : ℕ) → link (settle r c cs) s ≡ s
unfolding settle
link-settle [] c cs s = refl
link-settle (d ∷ r) c cs s =
    ground (arith, link-settle r (joined d c) cs s, link-rejoin (d ∷ r) c cs s)

-- Giving back the block `c`, with the blocks `r` before it, nearest first, and `cs` after it.
module _ (h : Heap) (r : List Cell) (c : Cell) (cs : List Cell)
    (v : Holds h (rejoin r (c ∷ cs))) where
  abbrev at : ℕ
  at = h.heap_start + span r

  abbrev freed : Cell
  freed = record c { free = true }

  room : past c at + span cs < word
  room = omega (arith, v.filled, v.high, span-rejoin r (c ∷ cs))

  marked : Memory
  marked = update h.memory at (record (h.memory at) { free = true })

  marked_lem : Back marked h.heap_start at r × Fore marked (link_back r at) at (freed ∷ cs)
  unfolding marked
  marked_lem =
      let low = v.low in
      let (b, f) = unzip h.memory h.heap_start c r cs (omega arith) v.placed in
      (
        Back-update h.memory h.heap_start at at _ r (omega arith) b,
        (
          rw (update_self h.memory at _, f.0),
          Fore-update h.memory at (past c at) at _ cs (omega arith) f.1,
        ),
      )

  free_block_lem :
      (m' : Memory) × (free_block (fuel_of h) h.memory at ≡ some m')
      × Fore m' 0 h.heap_start (give_back r c cs)
  unfolding free_block marked give_back
  free_block_lem =
      let low = v.low in
      let few = fuel_of-lt v in
      let total = length-rejoin r (c ∷ cs) in
      let (b, f) = marked_lem in
      let (m₁, run₁, b₁, f₁) =
        merge_right_lem (fuel_of h) marked h.heap_start at freed r cs (omega arith) (omega arith)
          room b f in
      let keep = span-absorb freed cs in
      let (m₂, run₂, f₂) =
        merge_left_lem (fuel_of h) m₁ h.heap_start at (absorb freed cs).0 r (absorb freed cs).1
          (omega arith) (omega arith) (omega (arith, room)) b₁ f₁ in
      (m₂, rw (run₁, free_block) run₂, f₂)

  -- In a heap that holds the blocks `r`, nearest first, then `c`, then `cs`, `free` of the address
  -- behind the header of `c` ends. The heap starts where it did and holds the list in which `c` is
  -- free and merged with the free blocks right after it and right before it.
  pub free_lem :
      (h' : Heap) × (free h (h.heap_start + span r + block_bytes) ≡ some h')
      × (h'.heap_start ≡ h.heap_start)
      × Holds h' (give_back r c cs)
  free_lem =
      let (m, run, f) = free_block_lem in
      (
        record h { memory = m },
        unfold free in rw (ne→==_false (at + block_bytes) 0 (omega arith), ptr, run),
        refl,
        record {
          placed = f;
          head = v.head ∙ link-rejoin r c cs h.heap_start ∙ sym link-give_back;
          filled = span-give_back ∙ v.filled;
          low = v.low;
          high = v.high;
        },
      )
    where
      ptr : sub64 (at + block_bytes) block_bytes ≡ at
      ptr = omega (arith, room)

      link-give_back : link (give_back r c cs) h.heap_start ≡ h.heap_start
      link-give_back = unfold give_back in link-settle r _ _ h.heap_start

      span-give_back :
          h.heap_start + span (give_back r c cs) ≡ h.heap_start + span (rejoin r (c ∷ cs))
      span-give_back =
          unfold give_back in
          omega (
            arith,
            span-settle r (absorb freed cs).0 (absorb freed cs).1,
            span-absorb freed cs,
            span-rejoin r (c ∷ cs),
          )
