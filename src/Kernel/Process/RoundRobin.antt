-- ===== src/Kernel/Process/RoundRobin.antt =====
-- Which thread `pick_next_runnable` picks, and what `schedule` and `exit_current` do with it.
use mathlib.Core.Option
use native.Mathlib.Nat.{mod-eq_of_lt, mod-eq-sub-mod}
use plum_os.Prelude.{
  ℕ, zero, suc, ◌+◌, ◌-◌, ◌%◌, ◌≤◌, ◌<◌, ◌≡◌, refl, ap, ◌∙◌, subst, ◌≢◌, ◌⊎◌, inl, inr, true, false,
  none, some, List, [], ◌∷◌, arith, ltb, ◌==◌, if◌then◌else◌, ltb→lt, ==_iff, ne→==_false,
  Bool-cases, length, get_elem?,
}
use plum_os.Kernel.Process.{
  Thread, Scheduler, can_run, runs_at, pick_from, pick_next_runnable, modify,
}

module _ {ℓ} {A : Type ℓ} where
  pub length-modify : (xs : List A) (i : ℕ) (f : A → A) → length (modify xs i f) ≡ length xs
  length-modify [] i f = refl
  length-modify (x ∷ xs) zero f = refl
  length-modify (x ∷ xs) (suc i) f = ap suc (length-modify xs i f)

  pub get_elem?-modify_self :
      (xs : List A) (i : ℕ) (f : A → A)
      → get_elem? (modify xs i f) i ≡ Option.map f (get_elem? xs i)
  get_elem?-modify_self [] i f = refl
  get_elem?-modify_self (x ∷ xs) zero f = refl
  get_elem?-modify_self (x ∷ xs) (suc i) f = get_elem?-modify_self xs i f

  pub get_elem?-modify_ne :
      (xs : List A) (i j : ℕ) (f : A → A) → i ≢ j → get_elem? (modify xs i f) j ≡ get_elem? xs j
  get_elem?-modify_ne [] i j f h = refl
  get_elem?-modify_ne (x ∷ xs) zero zero f h = absurd (h refl)
  get_elem?-modify_ne (x ∷ xs) zero (suc j) f h = refl
  get_elem?-modify_ne (x ∷ xs) (suc i) zero f h = refl
  get_elem?-modify_ne (x ∷ xs) (suc i) (suc j) f h =
      get_elem?-modify_ne xs i j f (λ e. h (ap suc e))

-- A change that keeps a thread's state keeps which threads can run.
pub runs_at-modify :
    (ts : List Thread) (i j : ℕ) (f : Thread → Thread)
    → ((t : Thread) → (f t).state ≡ t.state)
    → runs_at (modify ts i f) j ≡ runs_at ts j
runs_at-modify [] i j f h = refl
runs_at-modify (t ∷ ts) zero zero f h = ap can_run (h t)
runs_at-modify (t ∷ ts) zero (suc j) f h = refl
runs_at-modify (t ∷ ts) (suc i) zero f h = refl
runs_at-modify (t ∷ ts) (suc i) (suc j) f h = runs_at-modify ts i j f h

-- A thread that can run is one of the list.
pub runs_at-some :
    (ts : List Thread) (i : ℕ)
    → runs_at ts i ≡ true
    → (i < length ts) × ((t : Thread) × (get_elem? ts i ≡ some t) × (can_run t.state ≡ true))
runs_at-some [] i h = cc
runs_at-some (t ∷ ts) zero h = (omega arith, (t, refl, h))
runs_at-some (t ∷ ts) (suc i) h = let (lt, r) = runs_at-some ts i h in (omega arith, r)

pub runs_at-out : (ts : List Thread) (i : ℕ) → length ts ≤ i → runs_at ts i ≡ false
runs_at-out [] i h = refl
runs_at-out (t ∷ ts) zero h = absurd (omega arith)
runs_at-out (t ∷ ts) (suc i) h = runs_at-out ts i (omega arith)

-- The rounds from `i` to `k` of the loop meet no thread that can run.
abbrev pub Skips : List Thread → ℕ → ℕ → ℕ → Type 0
Skips ts start i k = (j : ℕ) → i ≤ j → j < k → runs_at ts ((start + j) % length ts) ≡ false

Skips-extend :
    (ts : List Thread) (start i k : ℕ)
    → runs_at ts ((start + i) % length ts) ≡ false
    → Skips ts start (i + 1) k
    → Skips ts start i k
Skips-extend ts start i k h s j lo hi = elim (Bool-cases (i == j)) [
  | inl e ↦ subst (λ x. runs_at ts ((start + x) % length ts) ≡ false) ((==_iff i j).0 e) h
  | inr e ↦ s j (ground arith) hi
]

-- The loop finds the first thread that can run in cyclic order, or there is none on the way.
pick_from_lem :
    (n i start : ℕ) (ts : List Thread)
    → ((pick_from n i start ts ≡ none) × Skips ts start i (i + n))
      ⊎ ((k : ℕ) × (pick_from n i start ts ≡ some ((start + k) % length ts))
          × (i ≤ k)
          × (k < i + n)
          × (runs_at ts ((start + k) % length ts) ≡ true)
          × Skips ts start i k)
unfolding pick_from
pick_from_lem zero i start ts = inl (refl, (λ j lo hi. absurd (omega arith)))
pick_from_lem (suc n) i start ts = elim (Bool-cases (runs_at ts ((start + i) % length ts))) [
  | inl h ↦ inr (i, rw h, omega arith, omega arith, h, (λ j lo hi. absurd (omega arith)))
  | inr h ↦ elim (pick_from_lem n (i + 1) start ts) [
    | inl (run, s) ↦
        inl (rw h run, (λ j lo hi. Skips-extend ts start i (i + 1 + n) h s j lo (omega arith)))
    | inr (k, run, lo, hi, ok, s) ↦
        inr (k, rw h run, omega arith, omega arith, ok, Skips-extend ts start i k h s)
  ]
]

-- The thread that comes `d` places after `start`, for `d` from 1 to the number of threads.
abbrev pub distance : ℕ → ℕ → ℕ → ℕ
distance n start j = if ltb start j then j - start else j + n - start

pub ahead_mod :
    (n start d : ℕ)
    → start < n
    → d ≤ n
    → (start + d) % n ≡ (if ltb (start + d) n then start + d else start + d - n)
ahead_mod n start d h k = elim (Bool-cases (ltb (start + d) n)) [
  | inl e ↦ rw e (mod-eq_of_lt (ltb→lt (start + d) n e))
  | inr e ↦
      let le : n ≤ start + d = ground arith in rw e (mod-eq-sub-mod le ∙ mod-eq_of_lt (omega arith))
]

pub distance_lem :
    (n start j : ℕ)
    → start < n
    → j < n
    → ((start + distance n start j) % n ≡ j) × (1 ≤ distance n start j) × (distance n start j ≤ n)
distance_lem n start j h k = ground (arith, ahead_mod n start (distance n start j))

module _ (s : Scheduler) (start : ℕ)
    (from : (elim s.current_thread [ none ↦ 0 | some i ↦ i ]) ≡ start)
    (here : start < length s.threads) where
  -- From thread `start`, the current one or 0 if there is none, `pick_next_runnable` returns the
  -- first thread after it in cyclic order that can run, `start` itself coming last; it returns -1
  -- only if no thread can run.
  pub pick_lem :
      ((pick_next_runnable s ≡ none) × ((j : ℕ) → runs_at s.threads j ≡ false))
      ⊎ ((k : ℕ) × (pick_next_runnable s ≡ some ((start + k) % length s.threads))
          × (1 ≤ k)
          × (k ≤ length s.threads)
          × (runs_at s.threads ((start + k) % length s.threads) ≡ true)
          × Skips s.threads start 1 k)
  unfolding pick_next_runnable
  pick_lem =
      let n = length s.threads in
      let run : pick_next_runnable s ≡ pick_from n 1 start s.threads =
        rw (ne→==_false n 0 (omega arith), from) in
      elim (pick_from_lem n 1 start s.threads) [
        | inl (found, skips) ↦ inl (
          run ∙ found,
          (λ j. elim (Bool-cases (ltb j n)) [
            | inl lt ↦
                let (to, lo, hi) = distance_lem n start j here (ltb→lt j n lt) in
                subst (λ x. runs_at s.threads x ≡ false) to (skips _ lo (omega arith))
            | inr ge ↦ runs_at-out s.threads j (ground arith)
          ]),
        )
        | inr (k, found, lo, hi, can, skips) ↦ inr (k, run ∙ found, lo, omega arith, can, skips)
      ]
