-- ===== src/Kernel/Heap/Tidy.antt =====
-- What the allocator keeps over any sequence of calls: sizes are multiples of 16, and no two free
-- blocks are neighbours. With the latter, `free` undoes `malloc`.
use mathlib.Core.Option.{some-injective}
use plum_os.Prelude.{
  ℕ, ◌+◌, ◌-◌, ◌%◌, ◌≡◌, refl, sym, ap, ap₂, ◌∙◌, subst, ◌≢◌, inl, inr, true, false, some, List, [],
  ◌∷◌, arith, leb, leb→le, Bool-cases,
}
use plum_os.Kernel.Heap.{Heap, block_bytes, align16, malloc, free}
use plum_os.Kernel.Heap.Layout.{Cell, span, rejoin, Holds}
use plum_os.Kernel.Heap.Malloc.{carve, Allocated, malloc_lem}
use plum_os.Kernel.Heap.Free.{
  joined, absorb, settle, give_back, free_lem, absorb_free, absorb_used, settle_free, settle_used,
}

abbrev pub HeadUsed : List Cell → Type 0
HeadUsed [] = Unit {0}
HeadUsed (c ∷ cs) = c.free ≡ false

-- No two free blocks are neighbours.
abbrev pub IsMerged : List Cell → Type 0
IsMerged [] = Unit {0}
IsMerged (c ∷ cs) = (c.free ≡ true → HeadUsed cs) × IsMerged cs

-- The nearest of the blocks before a position and the first of those from it on are not both free.
abbrev Meets : List Cell → List Cell → Type 0
Meets [] cs = Unit {0}
Meets (d ∷ r) cs = d.free ≡ true → HeadUsed cs

Meets-symm :
    (r : List Cell) (c : Cell) (cs : List Cell) → Meets r (c ∷ cs) → c.free ≡ true → HeadUsed r
Meets-symm [] c cs h e = tt
Meets-symm (d ∷ r) c cs h e = elim (Bool-cases d.free) [ inl k ↦ cc (h k) | inr k ↦ k ]

Meets-used :
    (r : List Cell) (c : Cell) (cs : List Cell) → (c.free ≡ true → HeadUsed r) → Meets r (c ∷ cs)
Meets-used [] c cs h = tt
Meets-used (d ∷ r) c cs h = λ e. elim (Bool-cases c.free) [ inl k ↦ cc (h k) | inr k ↦ k ]

Meets-HeadUsed : (r cs : List Cell) → HeadUsed r → Meets r cs
Meets-HeadUsed [] cs u = tt
Meets-HeadUsed (d ∷ r) cs u = λ e. cc

IsMerged-rejoin :
    (r cs : List Cell) → IsMerged r → Meets r cs → IsMerged cs → IsMerged (rejoin r cs)
IsMerged-rejoin [] cs a m b = b
IsMerged-rejoin (d ∷ r) cs a m b = IsMerged-rejoin r (d ∷ cs) a.1 (Meets-used r d cs a.0) (m, b)

IsMerged-split : (r cs : List Cell) → IsMerged (rejoin r cs) → IsMerged r × Meets r cs × IsMerged cs
IsMerged-split [] cs h = (tt, tt, h)
IsMerged-split (d ∷ r) cs h =
    let (a, m, b) = IsMerged-split r (d ∷ cs) h in ((Meets-symm r d cs m, a), b.0, b.1)

carve-IsMerged :
    (n : ℕ) (c : Cell) (cs : List Cell) → HeadUsed cs → IsMerged cs → IsMerged (carve n c cs)
unfolding carve
carve-IsMerged n c cs u m = elim (Bool-cases (leb (n + 48) c.size)) [
  | inl h ↦ rw h ((λ e. cc), ((λ _. u), m))
  | inr h ↦ rw h ((λ e. cc), m)
]

absorb-IsMerged :
    (c : Cell) (cs : List Cell)
    → IsMerged cs
    → HeadUsed (absorb c cs).1 × IsMerged (absorb c cs).1 × ((absorb c cs).0.free ≡ c.free)
unfolding absorb
absorb-IsMerged c [] m = (tt, tt, refl)
absorb-IsMerged c (d ∷ cs) m = elim (Bool-cases d.free) [
  | inl h ↦ rw (absorb_free c d cs h) (absorb-IsMerged (joined c d) cs m.1)
  | inr h ↦ rw (absorb_used c d cs h) (h, m, refl)
]

settle-IsMerged :
    (r : List Cell) (c : Cell) (cs : List Cell)
    → IsMerged r
    → HeadUsed cs
    → IsMerged cs
    → IsMerged (settle r c cs)
unfolding settle
settle-IsMerged [] c cs a u b = ((λ _. u), b)
settle-IsMerged (d ∷ r) c cs a u b = elim (Bool-cases d.free) [
  | inl h ↦ rw (settle_free d c r cs h) (settle-IsMerged r (joined d c) cs a.1 u b)
  | inr h ↦ rw (settle_used d c r cs h) (IsMerged-rejoin (d ∷ r) (c ∷ cs) a (λ e. cc) ((λ _. u), b))
]

give_back-IsMerged :
    (r : List Cell) (c : Cell) (cs : List Cell)
    → IsMerged (rejoin r (c ∷ cs))
    → IsMerged (give_back r c cs)
unfolding give_back
give_back-IsMerged r c cs h =
    let (a, m, b) = IsMerged-split r (c ∷ cs) h in
    let (u, m', e) = absorb-IsMerged (record c { free = true }) cs b.1 in
    settle-IsMerged r (absorb (record c { free = true }) cs).0
      (absorb (record c { free = true }) cs).1 a u m'

-- Sizes and the start of the heap are multiples of 16.
abbrev pub IsAligned : List Cell → Type 0
IsAligned [] = Unit {0}
IsAligned (c ∷ cs) = (c.size % 16 ≡ 0) × IsAligned cs

IsAligned-rejoin : (r cs : List Cell) → IsAligned r → IsAligned cs → IsAligned (rejoin r cs)
IsAligned-rejoin [] cs a b = b
IsAligned-rejoin (c ∷ r) cs a b = IsAligned-rejoin r (c ∷ cs) a.1 (a.0, b)

IsAligned-split : (r cs : List Cell) → IsAligned (rejoin r cs) → IsAligned r × IsAligned cs
IsAligned-split [] cs h = (tt, h)
IsAligned-split (c ∷ r) cs h = let (a, b) = IsAligned-split r (c ∷ cs) h in ((b.0, a), b.1)

span-IsAligned : (cs : List Cell) → IsAligned cs → span cs % 16 ≡ 0
span-IsAligned [] h = refl
span-IsAligned (c ∷ cs) h = omega (arith, span-IsAligned cs h.1)

carve-IsAligned :
    (n : ℕ) (c : Cell) (cs : List Cell) → n % 16 ≡ 0 → IsAligned (c ∷ cs) → IsAligned (carve n c cs)
unfolding carve
carve-IsAligned n c cs e h = elim (Bool-cases (leb (n + 48) c.size)) [
  | inl k ↦ let le = leb→le (n + 48) c.size k in rw k (e, (omega arith, h.1))
  | inr k ↦ rw k h
]

absorb-IsAligned :
    (c : Cell) (cs : List Cell) → IsAligned (c ∷ cs) → IsAligned ((absorb c cs).0 ∷ (absorb c cs).1)
unfolding absorb
absorb-IsAligned c [] h = h
absorb-IsAligned c (d ∷ cs) h = elim (Bool-cases d.free) [
  | inl e ↦ rw (absorb_free c d cs e) (absorb-IsAligned (joined c d) cs (omega arith, h.1.1))
  | inr e ↦ rw (absorb_used c d cs e) h
]

settle-IsAligned :
    (r : List Cell) (c : Cell) (cs : List Cell)
    → IsAligned r
    → IsAligned (c ∷ cs)
    → IsAligned (settle r c cs)
unfolding settle
settle-IsAligned [] c cs a b = b
settle-IsAligned (d ∷ r) c cs a b = elim (Bool-cases d.free) [
  | inl e ↦ rw (settle_free d c r cs e) (settle-IsAligned r (joined d c) cs a.1 (omega arith, b.1))
  | inr e ↦ rw (settle_used d c r cs e) (IsAligned-rejoin (d ∷ r) (c ∷ cs) a b)
]

give_back-IsAligned :
    (r : List Cell) (c : Cell) (cs : List Cell)
    → IsAligned (rejoin r (c ∷ cs))
    → IsAligned (give_back r c cs)
unfolding give_back
give_back-IsAligned r c cs h =
    let (a, b) = IsAligned-split r (c ∷ cs) h in
    settle-IsAligned r _ _ a (absorb-IsAligned (record c { free = true }) cs b)

-- The heap holds these blocks, aligned and with no two free ones side by side.
pub record IsTidy (h : Heap) (cs : List Cell) : Type 0 where
  pub holds : Holds h cs
  pub merged : IsMerged cs
  pub aligned : IsAligned cs
  pub start : h.heap_start % 16 ≡ 0

align16_aligned : (n : ℕ) → align16 n % 16 ≡ 0
align16_aligned n = omega arith

Allocated-IsTidy :
    {h : Heap} {cs : List Cell} {n : ℕ}
    → IsTidy h cs
    → (g : Allocated h cs n) → IsTidy g.heap (rejoin g.before (carve (align16 n) g.cell g.after))
Allocated-IsTidy {h} {cs} {n} t g =
    let (m₁, meets, m₂) =
      IsMerged-split g.before (g.cell ∷ g.after) (subst IsMerged (sym g.list) t.merged) in
    let (a₁, a₂) =
      IsAligned-split g.before (g.cell ∷ g.after) (subst IsAligned (sym g.list) t.aligned) in
    let used = Meets-symm g.before g.cell g.after meets g.was_free in
    record {
      holds = g.holds;
      merged =
          IsMerged-rejoin g.before (carve (align16 n) g.cell g.after) m₁
            (Meets-HeadUsed g.before _ used)
            (carve-IsMerged (align16 n) g.cell g.after (m₂.0 g.was_free) m₂.1);
      aligned =
          IsAligned-rejoin g.before (carve (align16 n) g.cell g.after) a₁
            (carve-IsAligned (align16 n) g.cell g.after (align16_aligned n) a₂);
      start = ap (λ k. k % 16) g.start ∙ t.start;
    }

-- On a tidy heap, whose start and block sizes are multiples of 16 and in which no two free blocks
-- are neighbours, `malloc` ends and keeps it so, with its start; the address that it returns is a
-- multiple of 16.
pub malloc-IsTidy :
    (h : Heap) (cs : List Cell) (n : ℕ)
    → IsTidy h cs
    → (p : ℕ) × (h' : Heap) × (cs' : List Cell) × (malloc h n ≡ some (p, h'))
      × (p % 16 ≡ 0)
      × (h'.heap_start ≡ h.heap_start)
      × IsTidy h' cs'
malloc-IsTidy h cs n t = elim (malloc_lem h cs n t.holds) [
  | inl g ↦ (0, h, cs, g.run, refl, refl, t)
  | inr g ↦
      let (a₁, _) =
        IsAligned-split g.before (g.cell ∷ g.after) (subst IsAligned (sym g.list) t.aligned) in
      (
        h.heap_start + span g.before + block_bytes,
        g.heap,
        rejoin g.before (carve (align16 n) g.cell g.after),
        g.run,
        omega (arith, span-IsAligned g.before a₁, t.start),
        g.start,
        Allocated-IsTidy t g,
      )
]

-- `free` of any block of a tidy heap ends, and leaves a tidy heap that starts where it did.
pub free-IsTidy :
    (h : Heap) (r : List Cell) (c : Cell) (cs : List Cell)
    → IsTidy h (rejoin r (c ∷ cs))
    → (h' : Heap) × (free h (h.heap_start + span r + block_bytes) ≡ some h')
      × (h'.heap_start ≡ h.heap_start)
      × IsTidy h' (give_back r c cs)
free-IsTidy h r c cs t =
    let (h', run, start, v) = free_lem h r c cs t.holds in
    (
      h',
      run,
      start,
      record {
        holds = v;
        merged = give_back-IsMerged r c cs t.merged;
        aligned = give_back-IsAligned r c cs t.aligned;
        start = ap (λ k. k % 16) start ∙ t.start;
      },
    )

absorb_head : (c : Cell) (cs : List Cell) → HeadUsed cs → absorb c cs ≡ (c, cs)
unfolding absorb
absorb_head c [] u = refl
absorb_head c (d ∷ cs) u = absorb_used c d cs u

settle_head :
    (r : List Cell) (c : Cell) (cs : List Cell) → HeadUsed r → settle r c cs ≡ rejoin r (c ∷ cs)
unfolding settle
settle_head [] c cs u = refl
settle_head (d ∷ r) c cs u = settle_used d c r cs u

give_back_head :
    (x c : Cell) (r ys cs : List Cell)
    → absorb (record x { free = true }) ys ≡ (c, cs)
    → HeadUsed r
    → give_back r x ys ≡ rejoin r (c ∷ cs)
unfolding give_back
give_back_head x c r ys cs e u = ap (λ w. settle r w.0 w.1) e ∙ settle_head r c cs u

same_cell : (c d : Cell) → c.size ≡ d.size → c.free ≡ d.free → c ≡ d
same_cell c d p q = λ i. record { size = p i; free = q i }

-- Between used neighbours, giving back what was carved off a free block restores the block.
give_back-carve :
    (n : ℕ) (c : Cell) (r cs : List Cell)
    → c.free ≡ true
    → HeadUsed r
    → HeadUsed cs
    → (x : Cell) × (ys : List Cell) × (carve n c cs ≡ x ∷ ys)
      × (give_back r x ys ≡ rejoin r (c ∷ cs))
unfolding carve
give_back-carve n c r cs e ur us = elim (Bool-cases (leb (n + 48) c.size)) [
  | inl k ↦
      let le = leb→le (n + 48) c.size k in
      let rest : Cell = record { size = c.size - n - 32; free = true } in
      let part : Cell = record { size = n; free = true } in
      let whole : joined part rest ≡ c = same_cell _ _ (omega arith) (sym e) in
      (
        record { size = n; free = false },
        rest ∷ cs,
        rw k,
        give_back_head _ c r _ cs
            (absorb_free part rest cs refl ∙ ap (λ w. absorb w cs) whole ∙ absorb_head c cs us) ur,
      )
  | inr k ↦
      let whole : record c { free = true } ≡ c = same_cell _ _ refl (sym e) in
      (
        record c { free = false },
        cs,
        rw k,
        give_back_head _ c r cs cs (ap (λ w. absorb w cs) whole ∙ absorb_head c cs us) ur,
      )
]

-- On a tidy heap, if `malloc` returned an address other than nullptr, `free` of it right afterwards
-- ends and leaves a tidy heap with the blocks as they were before.
pub free-malloc :
    (h : Heap) (cs : List Cell) (n p : ℕ) (h' : Heap)
    → IsTidy h cs
    → malloc h n ≡ some (p, h')
    → p ≢ 0
    → (h'' : Heap) × (free h' p ≡ some h'') × IsTidy h'' cs
free-malloc h cs n p h' t run ne = elim (malloc_lem h cs n t.holds) [
  | inl g ↦ absurd (ne (ap (λ x. x.0) (some-injective _ _ (sym run ∙ g.run))))
  | inr g ↦
      let same = some-injective _ _ (sym g.run ∙ run) in
      let (m₁, meets, m₂) =
        IsMerged-split g.before (g.cell ∷ g.after) (subst IsMerged (sym g.list) t.merged) in
      let (x, ys, cut, back) =
        give_back-carve (align16 n) g.cell g.before g.after g.was_free
          (Meets-symm g.before g.cell g.after meets g.was_free) (m₂.0 g.was_free) in
      let tidy = subst (λ l. IsTidy g.heap (rejoin g.before l)) cut (Allocated-IsTidy t g) in
      let (h'', run', start, tidy') = free-IsTidy g.heap g.before x ys tidy in
      (
        h'',
        ap₂ free (sym (ap (λ x. x.1) same))
              (sym (ap (λ x. x.0) same) ∙ ap (λ s. s + span g.before + block_bytes) (sym g.start))
            ∙ run',
        subst (IsTidy h'') (back ∙ g.list) tidy',
      )
]
