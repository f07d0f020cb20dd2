-- ===== src/Kernel/Heap/Regions.antt =====
-- Which memory is handed out: the bytes behind the headers of the used blocks.
use mathlib.Core.Option.{some-injective}
use plum_os.Prelude.{
  ℕ, ◌+◌, ◌-◌, ◌≤◌, ◌≡◌, refl, sym, ap, ap₂, ◌∙◌, subst, ◌≢◌, inl, inr, true, false, some, List, [],
  ◌∷◌, ◌++◌, append-nil, append_assoc, arith, leb, if◌then◌else◌, leb→le, Bool-cases,
}
use plum_os.Kernel.Heap.{Heap, block_bytes, align16, malloc, free}
use plum_os.Kernel.Heap.Layout.{Cell, past, span, rejoin, span-rejoin, Holds}
use plum_os.Kernel.Heap.Malloc.{carve, span-carve, Allocated, malloc_lem}
use plum_os.Kernel.Heap.Free.{
  joined, absorb, settle, give_back, free_lem, absorb_free, absorb_used, settle_free, settle_used,
}

-- An address and the number of bytes from it on.
abbrev pub Region : Type 0
Region = ℕ × ℕ

abbrev mine : ℕ → Cell → List Region
mine a c = if c.free then [] else (a + block_bytes, c.size) ∷ []

-- The memory that the blocks from `a` on have handed out.
pub regions : ℕ → List Cell → List Region
regions a [] = []
regions a (c ∷ cs) = mine a c ++ regions (past c a) cs

-- Regions between two addresses, in order and without overlap.
abbrev pub Apart : ℕ → ℕ → List Region → Type 0
Apart lo hi [] = lo ≤ hi
Apart lo hi (r ∷ rs) = (lo ≤ r.0) × Apart (r.0 + r.1) hi rs

Apart-lower : (lo lo' hi : ℕ) (rs : List Region) → lo ≤ lo' → Apart lo' hi rs → Apart lo hi rs
Apart-lower lo lo' hi [] h a = omega arith
Apart-lower lo lo' hi (r ∷ rs) h a = (omega arith, a.1)

regions-Apart : (a : ℕ) (cs : List Cell) → Apart a (a + span cs) (regions a cs)
unfolding regions
regions-Apart a [] = omega arith
regions-Apart a (c ∷ cs) =
    let e : past c a + span cs ≡ a + span (c ∷ cs) = omega arith in
    let rest =
      subst (λ k. Apart (past c a) k (regions (past c a) cs)) e (regions-Apart (past c a) cs) in
    elim (Bool-cases c.free) [
      | inl h ↦ rw h (Apart-lower a (past c a) (a + span (c ∷ cs)) _ (omega arith) rest)
      | inr h ↦ rw h (omega arith, rest)
    ]

regions_free :
    (a : ℕ) (c : Cell) (cs : List Cell) → c.free ≡ true → regions a (c ∷ cs) ≡ regions (past c a) cs
unfolding regions
regions_free a c cs h = rw h

regions_used :
    (a : ℕ) (c : Cell) (cs : List Cell)
    → c.free ≡ false
    → regions a (c ∷ cs) ≡ (a + block_bytes, c.size) ∷ regions (past c a) cs
unfolding regions
regions_used a c cs h = rw h

-- The regions of the blocks before a position, and of those from it on.
regions-rejoin :
    (s : ℕ) (r cs : List Cell)
    → regions s (rejoin r cs) ≡ regions s (rejoin r []) ++ regions (s + span r) cs
unfolding regions
regions-rejoin s [] cs = ap (λ k. regions k cs) (omega arith)
regions-rejoin s (c ∷ r) cs =
    let e : past c (s + span r) ≡ s + span (c ∷ r) = omega arith in
    regions-rejoin s r (c ∷ cs)
    ∙ ap (λ k. regions s (rejoin r []) ++ (mine (s + span r) c ++ regions k cs)) e
    ∙ rw (regions-rejoin s r (c ∷ []), append-nil, append_assoc)

-- What `malloc` hands out of a block.
carve_bytes : ℕ → Cell → ℕ
carve_bytes n c = if leb (n + 48) c.size then n else c.size

carve_bytes-le : (n : ℕ) (c : Cell) → n ≤ c.size → n ≤ carve_bytes n c
unfolding carve_bytes
carve_bytes-le n c fit = ground arith

regions-carve :
    (n a : ℕ) (c : Cell) (cs : List Cell)
    → n ≤ c.size
    → regions a (carve n c cs) ≡ (a + block_bytes, carve_bytes n c) ∷ regions (past c a) cs
unfolding carve carve_bytes regions
regions-carve n a c cs fit = elim (Bool-cases (leb (n + 48) c.size)) [
  | inl h ↦
      let le = leb→le (n + 48) c.size h in
      let e : a + block_bytes + n + block_bytes + (c.size - n - 32) ≡ past c a = omega arith in
      rw (h, e)
  | inr h ↦ rw h
]

-- Heap `h` with these blocks has given `p` for a request of `n` bytes, and is now `h'`: the region
-- at `p` has the bytes asked for, at the least, and lies in the heap, apart from every region
-- handed out before; these stay handed out, and no other comes in.
pub record HandsOut (h : Heap) (cs : List Cell) (n p : ℕ) (h' : Heap) : Type 0 where
  pub blocks : List Cell
  pub below : List Region
  pub above : List Region
  pub bytes : ℕ
  pub holds : Holds h' blocks
  pub before : regions h.heap_start cs ≡ below ++ above
  pub after : regions h.heap_start blocks ≡ below ++ (p, bytes) ∷ above
  pub enough : align16 n ≤ bytes
  pub apart : Apart h.heap_start h.heap_end (below ++ (p, bytes) ∷ above)

Allocated-HandsOut :
    {h : Heap} {cs : List Cell} {n : ℕ}
    → Holds h cs
    → (g : Allocated h cs n) → HandsOut h cs n (h.heap_start + span g.before + block_bytes) g.heap
Allocated-HandsOut {h} {cs} {n} v g =
    let s = h.heap_start in
    let at = s + span g.before in
    let k = align16 n in
    let new =
      regions-rejoin s g.before (carve k g.cell g.after)
      ∙ ap (λ l. regions s (rejoin g.before []) ++ l)
          (regions-carve k at g.cell g.after g.enough) in
    let total : s + span (rejoin g.before (carve k g.cell g.after)) ≡ h.heap_end = omega (
      arith,
      v.filled,
      ap (λ l. span l) g.list,
      span-rejoin g.before (g.cell ∷ g.after),
      span-rejoin g.before (carve k g.cell g.after),
      span-carve k g.cell g.after g.enough,
    ) in
    record {
      blocks = rejoin g.before (carve k g.cell g.after);
      below = regions s (rejoin g.before []);
      above = regions (past g.cell at) g.after;
      bytes = carve_bytes k g.cell;
      holds = g.holds;
      before =
          ap (regions s) (sym g.list)
          ∙ regions-rejoin s g.before (g.cell ∷ g.after)
          ∙ ap (λ l. regions s (rejoin g.before []) ++ l)
              (regions_free at g.cell g.after g.was_free);
      after = new;
      enough = carve_bytes-le k g.cell g.enough;
      apart =
          subst (λ l. Apart s h.heap_end l) new
            (subst (λ e. Apart s e (regions s (rejoin g.before (carve k g.cell g.after)))) total
              (regions-Apart s (rejoin g.before (carve k g.cell g.after))));
    }

-- In a heap that holds a list of blocks, a `malloc` that does not return nullptr hands out a region
-- that has at least the bytes asked for, rounded up to 16 in 64 bits; it lies inside the heap and
-- apart from all the regions handed out before, which stay handed out.
pub malloc-HandsOut :
    (h : Heap) (cs : List Cell) (n p : ℕ) (h' : Heap)
    → Holds h cs
    → malloc h n ≡ some (p, h')
    → p ≢ 0
    → HandsOut h cs n p h'
malloc-HandsOut h cs n p h' v run ne = elim (malloc_lem h cs n v) [
  | inl g ↦ absurd (ne (ap (λ x. x.0) (some-injective _ _ (sym run ∙ g.run))))
  | inr g ↦
      subst (λ w. HandsOut h cs n w.0 w.1) (some-injective _ _ (sym g.run ∙ run))
        (Allocated-HandsOut v g)
]

free-absorb : (c : Cell) (cs : List Cell) → (absorb c cs).0.free ≡ c.free
unfolding absorb
free-absorb c [] = refl
free-absorb c (d ∷ cs) = ground (arith, free-absorb (joined c d) cs)

-- Merging free blocks hands out nothing and takes nothing back.
regions-absorb :
    (a : ℕ) (c : Cell) (cs : List Cell)
    → regions (past (absorb c cs).0 a) (absorb c cs).1 ≡ regions (past c a) cs
unfolding absorb
regions-absorb a c [] = refl
regions-absorb a c (d ∷ cs) = elim (Bool-cases d.free) [
  | inl h ↦
      let e : past (joined c d) a ≡ past d (past c a) = omega arith in
      rw (absorb_free c d cs h) (
        regions-absorb a (joined c d) cs
        ∙ ap (λ k. regions k cs) e
        ∙ sym (regions_free (past c a) d cs h))
  | inr h ↦ rw (absorb_used c d cs h)
]

free_last :
    (s : ℕ) (d : Cell) (r : List Cell)
    → d.free ≡ true
    → regions s (rejoin (d ∷ r) []) ≡ regions s (rejoin r [])
free_last s d r h =
    regions-rejoin s r (d ∷ [])
    ∙ ap (λ l. regions s (rejoin r []) ++ l) (regions_free (s + span r) d [] h)
    ∙ unfold regions in append-nil _

regions-settle :
    (s : ℕ) (r : List Cell) (c : Cell) (cs : List Cell)
    → c.free ≡ true
    → regions s (settle r c cs) ≡ regions s (rejoin r []) ++ regions (past c (s + span r)) cs
regions-settle s [] c cs e =
    unfold settle in
    regions_free s c cs e ∙ unfold regions in ap (λ k. regions (past c k) cs) (omega arith)
regions-settle s (d ∷ r) c cs e = elim (Bool-cases d.free) [
  | inl h ↦
      let at : past (joined d c) (s + span r) ≡ past c (s + span (d ∷ r)) = omega arith in
      ap (regions s) (settle_free d c r cs h)
      ∙ regions-settle s r (joined d c) cs h
      ∙ ap₂ ◌++◌ (sym (free_last s d r h)) (ap (λ k. regions k cs) at)
  | inr h ↦
      ap (regions s) (settle_used d c r cs h)
      ∙ regions-rejoin s (d ∷ r) (c ∷ cs)
      ∙ ap (λ l. regions s (rejoin (d ∷ r) []) ++ l) (regions_free (s + span (d ∷ r)) c cs e)
]

-- `free` of a used block of the heap ends, takes back the region of that block and leaves all the
-- others handed out.
pub free-regions :
    (h : Heap) (r : List Cell) (c : Cell) (cs : List Cell)
    → Holds h (rejoin r (c ∷ cs))
    → c.free ≡ false
    → let p = h.heap_start + span r + block_bytes in
      (h' : Heap) × (blocks : List Cell) × (xs ys : List Region) × (free h p ≡ some h')
      × Holds h' blocks
      × (regions h.heap_start (rejoin r (c ∷ cs)) ≡ xs ++ (p, c.size) ∷ ys)
      × (regions h.heap_start blocks ≡ xs ++ ys)
free-regions h r c cs v used =
    let s = h.heap_start in
    let freed : Cell = record c { free = true } in
    let (h', run, start, v') = free_lem h r c cs v in
    (
      h',
      give_back r c cs,
      regions s (rejoin r []),
      regions (past c (s + span r)) cs,
      run,
      v',
      regions-rejoin s r (c ∷ cs)
          ∙ ap (λ l. regions s (rejoin r []) ++ l) (regions_used (s + span r) c cs used),
      unfold give_back in
          regions-settle s r (absorb freed cs).0 (absorb freed cs).1 (free-absorb freed cs)
          ∙ ap (λ l. regions s (rejoin r []) ++ l) (regions-absorb (s + span r) freed cs),
    )
