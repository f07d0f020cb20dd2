-- ===== src/Std/RingBuffer/Refine.antt =====
-- A ring in bounds behaves as the queue of the values between `tail` and `head`.
use native.Mathlib.Nat.{mod-eq_of_lt, mod_self}
use plum_os.Prelude.{
  ℕ, zero, suc, ◌+◌, ◌-◌, ◌%◌, ◌^◌, ◌≤◌, ◌<◌, ◌≡◌, refl, ap, ap₂, ◌≢◌, inl, inr, ◌&&◌, none, List,
  [], ◌∷◌, ◌++◌, arith, ltb, leb, ◌==◌, if◌then◌else◌, ==_iff, Bool-cases, length, get_or, set,
  length-set, length-replicate, get_or-set_self, get_or-set_ne, get_or-out_of_range,
  get_elem?-eq-get_or,
}
use plum_os.Std.RingBuffer.{RingBuffer, step, push, pop, fresh, clear, reset_cells}
use plum_os.Std.RingBuffer.Queue
use plum_os.Std.RingBuffer.Queue.{Call, Reply, put, get}

pub record IsValid {A : Type 0} (size : ℕ) (r : RingBuffer A) : Type 0 where
  pub word : size < 2 ^ 32
  pub storage : length r.cells ≡ size
  pub head_in : r.head < size
  pub tail_in : r.tail < size

-- The index after `i`, with no division.
abbrev after : ℕ → ℕ → ℕ
after size i = if i + 1 == size then 0 else i + 1

step-eq-after : (size i : ℕ) → size < 2 ^ 32 → i < size → step size i ≡ after size i
step-eq-after size i w h =
    let small : (i + 1) % 2 ^ 32 ≡ i + 1 = omega arith in
    rw small (elim (Bool-cases (i + 1 == size)) [
      | inl e ↦ let last : i + 1 ≡ size = (==_iff _ _).0 e in rw (e, last) (mod_self size)
      | inr e ↦ rw (e, mod-eq_of_lt {n = i + 1} {m = size} (ground arith))
    ])

module _ {A : Type 0} (size : ℕ) (cells : List A) (d : A) where
  abbrev pub window : ℕ → ℕ → List A
  window i zero = []
  window i (suc n) = get_or cells i d ∷ window (after size i) n

-- How many values stand between `tail` and `head`.
abbrev pub count : ℕ → ℕ → ℕ → ℕ
count size tail head = if ltb head tail then head + size - tail else head - tail

abbrev pub contents : {A : Type 0} → ℕ → A → RingBuffer A → List A
contents size d r = window size r.cells d r.tail (count size r.tail r.head)

module _ {A : Type 0} (size : ℕ) (cells : List A) (d : A) where
  length-window : (i n : ℕ) → length (window size cells d i n) ≡ n
  length-window i zero = refl
  length-window i (suc n) = ap suc (length-window (after size i) n)

  window_of_pos :
      (i n : ℕ)
      → n ≢ 0
      → window size cells d i n ≡ get_or cells i d ∷ window size cells d (after size i) (n - 1)
  window_of_pos i zero h = absurd (h refl)
  window_of_pos i (suc n) h = ap (λ k. window size cells d i (suc k)) (omega arith)

-- The index `n` places past `i`.
abbrev ahead : ℕ → ℕ → ℕ → ℕ
ahead size i n = if ltb (i + n) size then i + n else i + n - size

module _ {A : Type 0} (size : ℕ) (cells : List A) (d x : A) (enough : size ≤ length cells) where
  -- Writing just past a window extends it by the value written.
  window-set :
      (n i j : ℕ)
      → i < size
      → n < size
      → j ≡ ahead size i n
      → window size (set cells j x) d i (suc n) ≡ window size cells d i n ++ x ∷ []
  window-set zero i j hi hn e =
      let e' : j ≡ i = ground arith in rw (e', get_or-set_self cells i x d (omega arith))
  window-set (suc n) i j hi hn e =
      ap₂ ◌∷◌ (get_or-set_ne cells j i x d (ground arith))
        (window-set n (after size i) j (ground arith) (omega arith) (ground arith))

module _ {A : Type 0} (size : ℕ) (d : A) where
  pub length-contents : (r : RingBuffer A) → length (contents size d r) ≡ count size r.tail r.head
  length-contents r = length-window size r.cells d r.tail (count size r.tail r.head)

  pub push-IsValid : {r : RingBuffer A} (x : A) → IsValid size r → IsValid size (push size r x).1
  unfolding push
  push-IsValid {r} x v = ground (arith, length-set r.cells r.head x, step-eq-after size r.head)

  pub pop-IsValid : {r : RingBuffer A} → IsValid size r → IsValid size (pop size r).2
  unfolding pop
  pop-IsValid {r} v = ground (arith, step-eq-after size r.tail)

  -- On a ring in bounds `push` succeeds unless `size - 1` values are stored, and then appends its value.
  pub push_refines :
      {r : RingBuffer A} (x : A)
      → IsValid size r
      → let (done, r') = push size r x in
        (done, contents size d r') ≡ Queue.enqueue (size - 1) (contents size d r) x
  unfolding push Queue.enqueue
  push_refines {r} x v = ground (
    arith,
    length-contents r,
    step-eq-after size r.head,
    window-set size r.cells d x (omega arith) (count size r.tail r.head) r.tail r.head,
  )

  -- On a ring in bounds `pop` hands out the oldest value and takes it off; it fails exactly on the
  -- empty queue, which it leaves.
  pub pop_refines :
      {r : RingBuffer A}
      → IsValid size r
      → let (done, out, r') = pop size r in
        (done, out, contents size d r') ≡ Queue.dequeue (contents size d r)
  unfolding pop Queue.dequeue
  pop_refines {r} v = ground (
    arith,
    step-eq-after size r.tail,
    window_of_pos size r.cells d r.tail (count size r.tail r.head),
    get_elem?-eq-get_or r.cells r.tail d,
  )

  -- A client's calls on the ring, in order.
  pub serve : RingBuffer A → List (Call A) → List (Reply A)
  serve r [] = []
  serve r (put x ∷ calls) = let (done, r') = push size r x in (done, none) ∷ serve r' calls
  serve r (get ∷ calls) = let (done, out, r') = pop size r in (done, out) ∷ serve r' calls

  -- No sequence of calls tells a ring in bounds from the queue of `size - 1` places that holds its
  -- contents.
  pub serve_refines :
      (calls : List (Call A)) {r : RingBuffer A}
      → IsValid size r
      → serve r calls ≡ Queue.serve (size - 1) (contents size d r) calls
  unfolding serve Queue.serve
  serve_refines [] v = refl
  serve_refines (put x ∷ calls) v = rw (serve_refines calls (push-IsValid x v), ← push_refines x v)
  serve_refines (get ∷ calls) v = rw (serve_refines calls (pop-IsValid v), ← pop_refines v)

  -- A new ring is in bounds and empty.
  pub fresh-IsValid :
      0 < size → size < 2 ^ 32 → IsValid size (fresh size d) × (contents size d (fresh size d) ≡ [])
  unfolding fresh
  fresh-IsValid pos word = (
    record { word = word; storage = length-replicate size d; head_in = pos; tail_in = pos },
    refl,
  )

  -- `n` rounds of the loop in `clear`, from index `i` on: the cells before stay, the next `n` are
  -- reset, and the array keeps its length.
  reset_cells_lem :
      (n i j : ℕ) (cells : List A)
      → i + n ≤ length cells
      → (length (reset_cells n i d cells) ≡ length cells)
        × (get_or (reset_cells n i d cells) j d
            ≡ (if leb i j && ltb j (i + n) then d else get_or cells j d))
  unfolding reset_cells
  reset_cells_lem zero i j cells h = (refl, ground arith)
  reset_cells_lem (suc n) i j cells h =
      let l = length-set cells i d in
      ground (
        arith,
        l,
        reset_cells_lem n (i + 1) j (set cells i d),
        get_or-set_self cells i d d,
        get_or-set_ne cells i j d d,
      )

  -- `clear` of a ring in bounds leaves it in bounds and empty, with every cell value-initialised.
  pub clear-IsValid :
      {r : RingBuffer A}
      → IsValid size r
      → IsValid size (clear size d r)
        × (contents size d (clear size d r) ≡ [])
        × ((j : ℕ) → get_or (clear size d r).cells j d ≡ d)
  unfolding clear
  clear-IsValid {r} v =
      let pos : 0 < size = omega arith in
      let out : (j : ℕ) → get_or (reset_cells size 0 d r.cells) j d ≡ d =
        λ j. ground (arith, reset_cells_lem size 0 j r.cells, get_or-out_of_range r.cells j d) in
      let len : length (reset_cells size 0 d r.cells) ≡ size =
        omega (arith, (reset_cells_lem size 0 0 r.cells (omega arith)).0) in
      (record { word = omega arith; storage = len; head_in = pos; tail_in = pos }, refl, out)
