-- ===== src/Std/RingBuffer/Queue.antt =====
-- What a ring promises: a first-in first-out queue that holds at most `cap` values.
use plum_os.Prelude.{
  ℕ, Bool, true, false, Option, none, some, List, [], ◌∷◌, ◌++◌, ltb, if◌then◌else◌, length,
}

-- A client's calls.
pub data Call {ℓ} (A : Type ℓ) : Type ℓ where
  put : A → Call A
  get : Call A

-- What a call returns, and what `pop` writes through its reference.
abbrev pub Reply {ℓ} : Type ℓ → Type ℓ
Reply A = Bool × Option A

module _ {ℓ} {A : Type ℓ} where
  unfoldable pub enqueue : ℕ → List A → A → Bool × List A
  enqueue cap q x = if ltb (length q) cap then (true, q ++ x ∷ []) else (false, q)

  unfoldable pub dequeue : List A → Bool × Option A × List A
  dequeue [] = (false, none, [])
  dequeue (x ∷ q) = (true, some x, q)

  unfoldable pub serve : ℕ → List A → List (Call A) → List (Reply A)
  serve cap q [] = []
  serve cap q (put x ∷ calls) =
      let (done, q') = enqueue cap q x in (done, none) ∷ serve cap q' calls
  serve cap q (get ∷ calls) = let (done, out, q') = dequeue q in (done, out) ∷ serve cap q' calls
