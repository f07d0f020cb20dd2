-- ===== src/Kernel/Heap/Layout.antt =====
-- The list of blocks as it lies in memory: each header followed by its bytes, then the next header.
-- A position in the list is a zipper, the blocks before it nearest first and those from it on.
use plum_os.Prelude.{
  ℕ, ◌+◌, ◌-◌, ◌*◌, ◌≤◌, ◌<◌, ◌≡◌, refl, sym, subst, ◌≢◌, Bool, List, [], ◌∷◌, arith, ==_iff,
  ne→==_false, length, word,
}
use plum_os.Kernel.Heap.{Block, Memory, Heap, update, set_prev, block_bytes, fuel_of}

-- A block without its links: they follow from the order and the sizes.
pub record Cell : Type 0 where
  pub size : ℕ
  pub free : Bool

abbrev pub node : Cell → ℕ → ℕ → Block
node c p n = record { size = c.size; free = c.free; next = n; prev = p }

-- The address after a block at `a`.
abbrev pub past : Cell → ℕ → ℕ
past c a = a + block_bytes + c.size

-- The pointer to the first of some blocks that would stand at `a`.
abbrev pub link : List Cell → ℕ → ℕ
link [] a = 0
link (c ∷ cs) a = a

-- The pointer to the last of some blocks that end at `a`, nearest first.
abbrev pub link_back : List Cell → ℕ → ℕ
link_back [] a = 0
link_back (c ∷ r) a = a - (block_bytes + c.size)

abbrev pub Fore : Memory → ℕ → ℕ → List Cell → Type 0
Fore m p a [] = Unit {0}
Fore m p a (c ∷ cs) = (m a ≡ node c p (link cs (past c a))) × Fore m a (past c a) cs

abbrev pub Back : Memory → ℕ → ℕ → List Cell → Type 0
Back m s a [] = a ≡ s
Back m s a (c ∷ r) =
    (s + block_bytes + c.size ≤ a)
    × (m (a - (block_bytes + c.size)) ≡ node c (link_back r (a - (block_bytes + c.size))) a)
    × Back m s (a - (block_bytes + c.size)) r

abbrev pub span : List Cell → ℕ
span [] = 0
span (c ∷ cs) = block_bytes + c.size + span cs

-- `reverse r ++ cs`
abbrev pub rejoin : List Cell → List Cell → List Cell
rejoin [] cs = cs
rejoin (c ∷ r) cs = rejoin r (c ∷ cs)

-- A write in front of some blocks leaves them alone.
pub Fore-update :
    (m : Memory) (p a x : ℕ) (b : Block) (cs : List Cell)
    → x < a
    → Fore m p a cs
    → Fore (update m x b) p a cs
Fore-update m p a x b [] h f = tt
Fore-update m p a x b (c ∷ cs) h f =
    (rw (ne→==_false a x (omega arith)) f.0, Fore-update m a (past c a) x b cs (omega arith) f.1)

-- So does a write behind them.
pub Back-update :
    (m : Memory) (s a x : ℕ) (b : Block) (r : List Cell)
    → a ≤ x
    → Back m s a r
    → Back (update m x b) s a r
Back-update m s a x b [] h f = f
Back-update m s a x b (c ∷ r) h f = (
  f.0,
  rw (ne→==_false (a - (block_bytes + c.size)) x (omega arith)) f.1,
  Back-update m s (a - (block_bytes + c.size)) x b r (omega arith) f.2,
)

pub set_prev_pos :
    (m : Memory) (a q : ℕ) → 0 < a → set_prev m a q ≡ update m a (record (m a) { prev = q })
unfolding set_prev
set_prev_pos m a q h = rw (ne→==_false a 0 (omega arith))

pub update_self : (m : Memory) (a : ℕ) (b : Block) → update m a b a ≡ b
update_self m a b = rw ((==_iff a a).1 refl)

-- The blocks from `a` on, given another block to point back to.
pub Fore-set_prev :
    (m : Memory) (p q a : ℕ) (cs : List Cell)
    → 0 < a
    → Fore m p a cs
    → Fore (set_prev m (link cs a) q) q a cs
Fore-set_prev m p q a [] h f = tt
Fore-set_prev m p q a (c ∷ cs) h f =
    subst (λ k. Fore k q a (c ∷ cs)) (sym (set_prev_pos m a q h))
      (
        rw (update_self m a (record (m a) { prev = q }), f.0),
        Fore-update m a (past c a) a (record (m a) { prev = q }) cs (omega arith) f.1,
      )

-- `set_prev` on the blocks from `a` on leaves what lies before `a` alone.
pub Back-set_prev :
    (m : Memory) (s x a q : ℕ) (r cs : List Cell)
    → x ≤ a
    → 0 < a
    → Back m s x r
    → Back (set_prev m (link cs a) q) s x r
unfolding set_prev
Back-set_prev m s x a q r [] h pos b = b
Back-set_prev m s x a q r (c ∷ cs) h pos b =
    rw (ne→==_false a 0 (omega arith)) (Back-update m s x a _ r h b)

pub set_prev_other :
    (m : Memory) (x a q : ℕ) (cs : List Cell) → x < a → set_prev m (link cs a) q x ≡ m x
unfolding set_prev
set_prev_other m x a q [] h = refl
set_prev_other m x a q (c ∷ cs) h =
    rw (ne→==_false a 0 (omega arith), ne→==_false x a (omega arith))

pub rejoin-Fore :
    (m : Memory) (s a : ℕ) (c : Cell) (r cs : List Cell)
    → Back m s a r
    → Fore m (link_back r a) a (c ∷ cs)
    → Fore m 0 s (rejoin r (c ∷ cs))
rejoin-Fore m s a c [] cs b f = rw (← b) f
rejoin-Fore m s a c (d ∷ r) cs b f =
    let at = a - (block_bytes + d.size) in
    let e : past d at ≡ a = omega arith in rejoin-Fore m s at d r (c ∷ cs) b.2 (rw e (b.1, f))

pub Back-start : (m : Memory) (s a : ℕ) (r : List Cell) → Back m s a r → s ≤ a
Back-start m s a [] b = omega arith
Back-start m s a (c ∷ r) b = omega arith

-- The position one block on, if a block stands there.
pub step_right :
    (m : Memory) (s a : ℕ) (c : Cell) (r cs : List Cell)
    → Back m s a r
    → Fore m (link_back r a) a (c ∷ cs)
    → (cs ≢ [] → Back m s (past c a) (c ∷ r)) × Fore m (link_back (c ∷ r) (past c a)) (past c a) cs
step_right m s a c r [] b f = ((λ h. absurd (h refl)), tt)
step_right m s a c r (d ∷ cs) b f =
    let e : past c a - (block_bytes + c.size) ≡ a = omega arith in
    let le : s ≤ a = omega (arith, Back-start m s a r b) in rw e ((λ h. (omega arith, f.0, b)), f.1)

pub Back-span : (m : Memory) (s a : ℕ) (r : List Cell) → Back m s a r → a ≡ s + span r
Back-span m s a [] b = omega arith
Back-span m s a (c ∷ r) b = omega (arith, Back-span m s (a - (block_bytes + c.size)) r b.2)

pub span-rejoin : (r cs : List Cell) → span (rejoin r cs) ≡ span r + span cs
span-rejoin [] cs = omega arith
span-rejoin (c ∷ r) cs = omega (arith, span-rejoin r (c ∷ cs))

pub length-le-span : (cs : List Cell) → block_bytes * length cs ≤ span cs
length-le-span [] = omega arith
length-le-span (c ∷ cs) = omega (arith, length-le-span cs)

-- The heap holds these blocks, which fill it from `heap_start` to `heap_end`.
pub record Holds (h : Heap) (cs : List Cell) : Type 0 where
  pub placed : Fore h.memory 0 h.heap_start cs
  pub head : h.heap_head ≡ link cs h.heap_start
  pub filled : h.heap_start + span cs ≡ h.heap_end
  pub low : 16 ≤ h.heap_start
  pub high : h.heap_end < word

pub link-rejoin :
    (r : List Cell) (c : Cell) (cs : List Cell) (s : ℕ) → link (rejoin r (c ∷ cs)) s ≡ s
link-rejoin [] c cs s = refl
link-rejoin (d ∷ r) c cs s = link-rejoin r d (c ∷ cs) s

pub length-rejoin : (r cs : List Cell) → length (rejoin r cs) ≡ length r + length cs
length-rejoin [] cs = omega arith
length-rejoin (c ∷ r) cs = omega (arith, length-rejoin r (c ∷ cs))

-- The fuel is enough for every block of the heap.
pub fuel_of-lt : {h : Heap} {cs : List Cell} → Holds h cs → length cs < fuel_of h
fuel_of-lt {h} {cs} v = omega (arith, v.filled, length-le-span cs)
