-- ===== src/Kernel/Heap/Malloc.antt =====
-- `malloc` against first fit over the list of blocks.
use mathlib.Core.Option.{some-injective}
use plum_os.Prelude.{
  ℕ, zero, suc, ◌+◌, ◌-◌, ◌≤◌, ◌<◌, ◌≡◌, refl, sym, ap, ◌∙◌, subst, ◌≢◌, ◌⊎◌, inl, inr, Bool, true,
  false, ◌&&◌, Option, none, some, List, [], ◌∷◌, arith, leb, if◌then◌else◌, leb→le, ne→==_false,
  Bool-cases, length, word, add64, sub64,
}
use plum_os.Kernel.Heap.{
  Memory, Heap, update, set_prev, block_bytes, align16, split_block, take_block, malloc_from,
  malloc, fuel_of,
}
use plum_os.Kernel.Heap.Layout.{
  Cell, node, past, link, link_back, Fore, Back, span, rejoin, Fore-update, Back-update,
  Fore-set_prev, Back-set_prev, set_prev_other, update_self, rejoin-Fore, Back-span, step_right,
  span-rejoin, link-rejoin, fuel_of-lt, Holds,
}

-- First fit: `n` bytes from a free block, which is split if 48 bytes or more are left over.
unfoldable pub carve : ℕ → Cell → List Cell → List Cell
carve n c cs =
    if leb (n + 48) c.size
    then record { size = n; free = false } ∷ record { size = c.size - n - 32; free = true } ∷ cs
    else record c { free = false } ∷ cs

abbrev fits : ℕ → Cell → Bool
fits n c = c.free && leb n c.size

-- The blocks before the one that is taken, nearest first, that block, and those after it.
pub record Spot : Type 0 where
  pub before : List Cell
  pub cell : Cell
  pub after : List Cell

pub first_fit : ℕ → List Cell → List Cell → Option Spot
first_fit n r [] = none
first_fit n r (c ∷ cs) =
    if fits n c then some (record { before = r; cell = c; after = cs }) else first_fit n (c ∷ r) cs

-- What is left of a block of which `n` bytes are taken.
abbrev rest_of : ℕ → Cell → Cell
rest_of n c = record { size = c.size - n - 32; free = true }

abbrev taken : ℕ → Cell
taken n = record { size = n; free = false }

module _ (m : Memory) (s a n : ℕ) (c : Cell) (r cs : List Cell) (pos : 16 ≤ a)
    (room : past c a + span cs < word) (b : Back m s a r) (f : Fore m (link_back r a) a (c ∷ cs))
    (fit : n ≤ c.size) where
  -- The test for a split does not wrap.
  test_exact : leb (add64 (add64 n block_bytes) 16) (m a).size ≡ leb (n + 48) c.size
  test_exact = rw f.0 (ap (λ k. leb k c.size) (omega arith))

  take_block_whole :
      leb (n + 48) c.size ≡ false
      → Back (take_block m a n) s a r
        × Fore (take_block m a n) (link_back r a) a (record c { free = false } ∷ cs)
  take_block_whole h =
      subst (λ k. Back k s a r × Fore k (link_back r a) a (record c { free = false } ∷ cs)) (sym e)
        (
          Back-update m s a a _ r (omega arith) b,
          (
            rw (update_self m a (record (m a) { free = false }), f.0),
            Fore-update m a (past c a) a _ cs (omega arith) f.1,
          ),
        )
    where
      e : take_block m a n ≡ update m a (record (m a) { free = false })
      e = unfold take_block in rw (test_exact, h)

  abbrev split_at : ℕ
  split_at = a + block_bytes + n

  -- The memory after the new header is written and the next block points back to it.
  abbrev linked : Memory
  linked =
      set_prev (update m split_at (node (rest_of n c) a (link cs (past c a)))) (link cs (past c a))
        split_at

  split_block_lem :
      leb (n + 48) c.size ≡ true
      → split_block m a n ≡ update linked a (record (linked a) { size = n; next = split_at })
  unfolding split_block
  split_block_lem h =
      let room' = leb→le (n + 48) c.size h in
      let at : add64 (add64 a block_bytes) n ≡ split_at = omega arith in
      let left : sub64 (sub64 c.size n) block_bytes ≡ c.size - n - 32 = omega arith in
      rw (at, f.0, left)

  linked_here : linked a ≡ node c (link_back r a) (link cs (past c a))
  linked_here =
      set_prev_other _ a (past c a) split_at cs (omega arith)
      ∙ rw (ne→==_false a split_at (omega arith)) f.0

  linked-Back : Back linked s a r
  linked-Back =
      Back-set_prev _ s a (past c a) split_at r cs (omega arith) (omega arith)
        (Back-update m s a split_at _ r (omega arith) b)

  linked-Fore : leb (n + 48) c.size ≡ true → Fore linked a split_at (rest_of n c ∷ cs)
  linked-Fore h =
      let room' = leb→le (n + 48) c.size h in
      let e : past (rest_of n c) split_at ≡ past c a = omega arith in
      rw e (
        set_prev_other _ split_at (past c a) split_at cs (omega arith) ∙ update_self m split_at _,
        Fore-set_prev _ a split_at (past c a) cs (omega arith)
            (Fore-update m a (past c a) split_at _ cs (omega arith) f.1),
      )

  take_block_split :
      leb (n + 48) c.size ≡ true
      → Back (take_block m a n) s a r
        × Fore (take_block m a n) (link_back r a) a (taken n ∷ rest_of n c ∷ cs)
  take_block_split h =
      subst (λ k. Back k s a r × Fore k (link_back r a) a (taken n ∷ rest_of n c ∷ cs)) (sym e)
        (
          Back-update m₁ s a a _ r (omega arith)
              (Back-update linked s a a _ r (omega arith) linked-Back),
          (
            rw (update_self m₁ a _, update_self linked a _, linked_here),
            Fore-update m₁ a split_at a _ (rest_of n c ∷ cs) (omega arith) (
                Fore-update linked a split_at a _ (rest_of n c ∷ cs) (omega arith) (linked-Fore h)),
          ),
        )
    where
      m₁ : Memory
      m₁ = update linked a (record (linked a) { size = n; next = split_at })

      e : take_block m a n ≡ update m₁ a (record (m₁ a) { free = false })
      e = unfold take_block in rw (test_exact, h, split_block_lem h)

  -- The list after the block at `a` is taken.
  take_block-carve : Fore (take_block m a n) 0 s (rejoin r (carve n c cs))
  unfolding carve
  take_block-carve = elim (Bool-cases (leb (n + 48) c.size)) [
    | inl h ↦
        let (b', f') = take_block_split h in
        rw h (rejoin-Fore _ s a (taken n) r (rest_of n c ∷ cs) b' f')
    | inr h ↦
        let (b', f') = take_block_whole h in
        rw h (rejoin-Fore _ s a (record c { free = false }) r cs b' f')
  ]

pub span-carve :
    (n : ℕ) (c : Cell) (cs : List Cell) → n ≤ c.size → span (carve n c cs) ≡ span (c ∷ cs)
unfolding carve
span-carve n c cs h = ground arith

-- What a call of `malloc` for `n` bytes leaves: nullptr and the old memory if no block fits, or the
-- address behind the header of the block found, and a memory in which that block is taken.
pub data Serves (m : Memory) (s n : ℕ) : Option Spot → ℕ × Memory → Type 0 where
  refused : Serves m s n none (0, m)
  served :
      (t : Spot) (m' : Memory)
      → Fore m' 0 s (rejoin t.before (carve n t.cell t.after))
      → Serves m s n (some t) (s + span t.before + block_bytes, m')

fits_le : (n : ℕ) (c : Cell) → fits n c ≡ true → leb n c.size ≡ true
fits_le n c h = ground arith

fits_free : (n : ℕ) (c : Cell) → fits n c ≡ true → c.free ≡ true
fits_free n c h = ground arith

module _ (fuel : ℕ) (m : Memory) (a n p : ℕ) (cs : List Cell) (c : Cell) (pos : 0 < a)
    (e : m a ≡ node c p (link cs (past c a))) where
  malloc_from_hit :
      fits n c ≡ true → malloc_from (suc fuel) m a n ≡ some (add64 a block_bytes, take_block m a n)
  unfolding malloc_from
  malloc_from_hit h = rw (ne→==_false a 0 (omega arith), e, h)

  malloc_from_miss :
      fits n c ≡ false → malloc_from (suc fuel) m a n ≡ malloc_from fuel m (link cs (past c a)) n
  unfolding malloc_from
  malloc_from_miss h = rw (ne→==_false a 0 (omega arith), e, h)

first_fit_hit :
    (n : ℕ) (r cs : List Cell) (c : Cell)
    → fits n c ≡ true
    → first_fit n r (c ∷ cs) ≡ some (record { before = r; cell = c; after = cs })
unfolding first_fit
first_fit_hit n r cs c h = rw h

first_fit_miss :
    (n : ℕ) (r cs : List Cell) (c : Cell)
    → fits n c ≡ false
    → first_fit n r (c ∷ cs) ≡ first_fit n (c ∷ r) cs
unfolding first_fit
first_fit_miss n r cs c h = rw h

-- Enough fuel lets the loop reach the end of the list.
malloc_from-Serves :
    (fuel : ℕ) (m : Memory) (s a n : ℕ) (r cs : List Cell)
    → length cs < fuel
    → 16 ≤ a
    → a + span cs < word
    → (cs ≢ [] → Back m s a r)
    → Fore m (link_back r a) a cs
    → (res : ℕ × Memory) × (malloc_from fuel m (link cs a) n ≡ some res)
      × Serves m s n (first_fit n r cs) res
malloc_from-Serves zero m s a n r cs enough pos room b f = absurd (omega arith)
malloc_from-Serves (suc fuel) m s a n r [] enough pos room b f =
    unfold malloc_from first_fit in ((0, m), refl, refused)
malloc_from-Serves (suc fuel) m s a n r (c ∷ cs) enough pos room b f =
    elim (Bool-cases (fits n c)) [
      | inl e ↦
          let k = leb→le n c.size (fits_le n c e) in
          let b' : Back m s a r = b (λ q. cc q) in
          let here = Back-span m s a r b' in
          (
            (s + span r + block_bytes, take_block m a n),
            malloc_from_hit fuel m a n (link_back r a) cs c (omega arith) f.0 e
                ∙ ap (λ x. some (x, take_block m a n)) (omega arith),
            rw (first_fit_hit n r cs c e) (
                served (record { before = r; cell = c; after = cs }) (take_block m a n)
                  (take_block-carve m s a n c r cs pos (omega arith) b' f k)),
          )
      | inr e ↦
          let stand = step_right m s a c r cs (b (λ q. cc q)) f in
          let (res, run, done) =
            malloc_from-Serves fuel m s (past c a) n (c ∷ r) cs (omega arith) (omega arith)
              (omega arith) stand.0 stand.1 in
          (
            res,
            malloc_from_miss fuel m a n (link_back r a) cs c (omega arith) f.0 e ∙ run,
            rw (first_fit_miss n r cs c e) done,
          )
    ]

-- No block of a list fits.
abbrev pub NoneFits : ℕ → List Cell → Type 0
NoneFits n [] = Unit {0}
NoneFits n (c ∷ cs) = (fits n c ≡ false) × NoneFits n cs

-- `first_fit` finds the first block that fits, and misses none.
first_fit-none : (n : ℕ) (r cs : List Cell) → first_fit n r cs ≡ none → NoneFits n cs
first_fit-none n r [] h = tt
first_fit-none n r (c ∷ cs) h = elim (Bool-cases (fits n c)) [
  | inl e ↦ cc (first_fit_hit n r cs c e)
  | inr e ↦ (e, first_fit-none n (c ∷ r) cs (sym (first_fit_miss n r cs c e) ∙ h))
]

first_fit-some :
    (n : ℕ) (r cs : List Cell) (t : Spot)
    → NoneFits n r
    → first_fit n r cs ≡ some t
    → (rejoin t.before (t.cell ∷ t.after) ≡ rejoin r cs)
      × NoneFits n t.before
      × (t.cell.free ≡ true)
      × (n ≤ t.cell.size)
first_fit-some n r [] t o h = unfold first_fit in cc
first_fit-some n r (c ∷ cs) t o h = elim (Bool-cases (fits n c)) [
  | inl e ↦
      subst
        (λ u.
          (rejoin u.before (u.cell ∷ u.after) ≡ rejoin r (c ∷ cs))
          × NoneFits n u.before
          × (u.cell.free ≡ true)
          × (n ≤ u.cell.size))
        (some-injective _ _ (sym (first_fit_hit n r cs c e) ∙ h))
        (refl, o, fits_free n c e, leb→le n c.size (fits_le n c e))
  | inr e ↦ first_fit-some n (c ∷ r) cs t (e, o) (sym (first_fit_miss n r cs c e) ∙ h)
]

-- A call that finds no block.
pub record Refused (h : Heap) (cs : List Cell) (n : ℕ) : Type 0 where
  pub full : NoneFits (align16 n) cs
  pub run : malloc h n ≡ some (0, h)

-- A call that takes the first block that fits: what stands around it, and the heap afterwards.
pub record Allocated (h : Heap) (cs : List Cell) (n : ℕ) : Type 0 where
  pub before : List Cell
  pub cell : Cell
  pub after : List Cell
  pub list : rejoin before (cell ∷ after) ≡ cs
  pub first : NoneFits (align16 n) before
  pub was_free : cell.free ≡ true
  pub enough : align16 n ≤ cell.size
  pub heap : Heap
  pub run : malloc h n ≡ some (h.heap_start + span before + block_bytes, heap)
  pub start : heap.heap_start ≡ h.heap_start
  pub holds : Holds heap (rejoin before (carve (align16 n) cell after))

link-carve : (n s : ℕ) (r cs : List Cell) (c : Cell) → link (rejoin r (carve n c cs)) s ≡ s
unfolding carve
link-carve n s r cs c = ground (
  arith,
  link-rejoin r (taken n) (rest_of n c ∷ cs) s,
  link-rejoin r (record c { free = false }) cs s,
)

-- The memory after a call that found a block is that of a heap.
serve-Holds :
    (h : Heap) (cs : List Cell) (n : ℕ) (t : Spot) (m : Memory)
    → Holds h cs
    → rejoin t.before (t.cell ∷ t.after) ≡ cs
    → n ≤ t.cell.size
    → Fore m 0 h.heap_start (rejoin t.before (carve n t.cell t.after))
    → Holds (record h { memory = m }) (rejoin t.before (carve n t.cell t.after))
serve-Holds h cs n t m v e fit f = record {
  placed = f;
  head =
      v.head
      ∙ ap (λ k. link k h.heap_start) (sym e)
      ∙ link-rejoin t.before t.cell t.after _
      ∙ sym (link-carve n h.heap_start t.before t.after t.cell);
  filled = omega (
    arith,
    v.filled,
    span-rejoin t.before (carve n t.cell t.after),
    span-carve n t.cell t.after fit,
    span-rejoin t.before (t.cell ∷ t.after),
    ap (λ k. span k) e,
  );
  low = v.low;
  high = v.high;
}

module _ (h : Heap) (cs : List Cell) (n : ℕ) (v : Holds h cs) where
  malloc_run :
      (res : ℕ × Memory)
      → malloc_from (fuel_of h) h.memory (link cs h.heap_start) (align16 n) ≡ some res
      → malloc h n ≡ some (res.0, record h { memory = res.1 })
  unfolding malloc
  malloc_run res e =
      let e' = ap (λ x. malloc_from (fuel_of h) h.memory x (align16 n)) v.head ∙ e in
      rw (e', malloc)

  conclude :
      (o : Option Spot) (res : ℕ × Memory)
      → first_fit (align16 n) [] cs ≡ o
      → Serves h.memory h.heap_start (align16 n) o res
      → malloc_from (fuel_of h) h.memory (link cs h.heap_start) (align16 n) ≡ some res
      → Refused h cs n ⊎ Allocated h cs n
  conclude _ _ found refused run =
      inl (record { full = first_fit-none (align16 n) [] cs found; run = malloc_run _ run })
  conclude _ _ found (served t m f) run =
      let (list, first, was_free, enough) = first_fit-some (align16 n) [] cs t tt found in
      inr (record {
        before = t.before;
        cell = t.cell;
        after = t.after;
        list = list;
        first = first;
        was_free = was_free;
        enough = enough;
        heap = record h { memory = m };
        run = malloc_run _ run;
        start = refl;
        holds = serve-Holds h cs (align16 n) t m v list enough f;
      })

  -- In a heap that holds a list of blocks, `malloc` ends. Either it returns nullptr and leaves the
  -- heap, and no block is free and large enough for the size rounded up to 16; or it takes the
  -- first block that is, splits it if 48 bytes or more are left over, and returns the address
  -- behind its header. Every other block stays as it is.
  pub malloc_lem : Refused h cs n ⊎ Allocated h cs n
  malloc_lem =
      let (res, run, done) =
        malloc_from-Serves (fuel_of h) h.memory h.heap_start h.heap_start (align16 n) [] cs
          (fuel_of-lt v) v.low (omega (arith, v.filled, v.high)) (λ _. refl) v.placed in
      conclude (first_fit (align16 n) [] cs) res refl done run
