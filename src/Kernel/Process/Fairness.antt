-- ===== src/Kernel/Process/Fairness.antt =====
-- Over a run of timer interrupts every thread that can run gets its turn.
use native.Mathlib.Nat.{mod-lt, mod-add-mod, mul-le-mul_right}
use mathlib.Core.Option
use plum_os.Prelude.{
  ℕ, zero, suc, ◌+◌, ◌-◌, ◌*◌, ◌%◌, ◌≤◌, ◌<◌, ◌≡◌, refl, ap, ◌∙◌, ◌⊎◌, inl, inr, true, some, List,
  [], ◌∷◌, arith, ltb, ◌==◌, ltb→lt, ==_iff, Bool-cases, length, get_elem?,
}
use plum_os.Kernel.Process.{Thread, Scheduler, runs_at}
use plum_os.Kernel.Process.RoundRobin.{
  distance, distance_lem, runs_at-some, length-modify, runs_at-modify, get_elem?-modify_self,
}
use plum_os.Kernel.Process.Timer.{worked, timer, ticks}
use plum_os.Kernel.Process.Turns.{
  priority_at, priority_at-modify, priority_at-some, Left, turn_goes_on, turn_begun, raised,
  timer-Handed,
}

product_le : (e e' p : ℕ) → e' < e → e' * p + p ≤ e * p
product_le e e' p h = let m = mul-le-mul_right p h in omega arith

module _ (p : ℕ) (pos : 1 ≤ p) where
  -- A thread `e + 1` places ahead of the current one is current after at most `e * p + r`
  -- interrupts, where the current one has `r` to go.
  reached :
      (fuel e r c j : ℕ) (frames : ℕ → ℕ) (s : Scheduler) (t : Thread)
      → p < 256
      → e * p + r ≤ fuel
      → e < length s.threads
      → ((i : ℕ) → priority_at s.threads i ≤ p)
      → s.current_thread ≡ some c
      → get_elem? s.threads c ≡ some t
      → Left t r
      → c < length s.threads
      → (c + (e + 1)) % length s.threads ≡ j
      → runs_at s.threads j ≡ true
      → (n : ℕ) × (n ≤ fuel) × ((ticks n frames s).current_thread ≡ some j)
  unfolding ticks
  reached zero e r c j frames s t small le hi most at found left here to can =
      absurd (omega (arith, left.0))
  reached (suc fuel) e r c j frames s t small le hi most at found left here to can =
      let frames' : ℕ → ℕ = λ i. frames (i + 1) in
      let s2 = (timer (frames 0) s).1 in
      elim (timer-Handed p pos (frames 0) c j s t at found here can most) [
        | inr (go, run) ↦
            let size = length-modify s.threads c worked in
            let low : t.priority < 256 =
              omega (arith, small, priority_at-some s.threads c t found, most c) in
            let (more, left') = turn_goes_on t r low left go in
            let (n, few, done) =
              reached fuel e (r - 1) c j frames' (raised c s) (worked t) small (omega arith)
                (omega (arith, size))
                (λ i. omega (arith, priority_at-modify s.threads c i worked (λ x. refl), most i)) at
                (get_elem?-modify_self s.threads c worked ∙ ap (Option.map worked) found) left'
                (omega (arith, size)) (ap (λ z. (c + (e + 1)) % z) size ∙ to)
                (runs_at-modify s.threads c j worked (λ x. refl) ∙ can) in
            (suc n, omega arith, ap (λ x. (ticks n frames' x).current_thread) run ∙ done)
        | inl (k, h) ↦ elim (Bool-cases (k == e + 1)) [
          | inl q ↦
              let same : k ≡ e + 1 = (==_iff k (e + 1)).0 q in
              (
                1,
                omega arith,
                h.is_current ∙ ap (λ x. some ((c + x) % length s.threads)) same ∙ ap some to,
              )
          | inr q ↦ elim (Bool-cases (ltb (e + 1) k)) [
            | inl past ↦
                let gap = h.skips (e + 1) (omega arith) (ltb→lt (e + 1) k past) in
                let same = ap (runs_at s.threads) to in cc
            | inr short ↦
                let less : k ≤ e = ground arith in
                let (r', few', left') = h.left in
                let lo' : 0 < length s.threads = omega arith in
                let fuel_left : (e - k) * p + p ≤ e * p =
                  product_le e (e - k) p (omega (arith, h.at_least)) in
                let sum : c + k + (e - k + 1) ≡ c + (e + 1) = omega arith in
                let target : ((c + k) % length s.threads + (e - k + 1)) % length s2.threads ≡ j =
                  ap (λ z. ((c + k) % length s.threads + (e - k + 1)) % z) h.size
                  ∙ mod-add-mod (c + k) (length s.threads) (e - k + 1)
                  ∙ ap (λ z. z % length s.threads) sum
                  ∙ to in
                let (n, few, done) =
                  reached fuel (e - k) r' ((c + k) % length s.threads) j frames' s2 h.thread small
                    (omega (arith, left.0)) (omega (arith, h.size))
                    (λ i. omega (arith, h.priorities i, most i)) h.is_current h.found left'
                    (omega (arith, h.size, mod-lt (c + k) lo')) target (h.states j ∙ can) in
                (suc n, omega arith, done)
          ]
        ]
      ]

get_elem?-lt : (ts : List Thread) (i : ℕ) (t : Thread) → get_elem? ts i ≡ some t → i < length ts
get_elem?-lt [] i t h = cc
get_elem?-lt (x ∷ ts) zero t h = omega arith
get_elem?-lt (x ∷ ts) (suc i) t h = let lt = get_elem?-lt ts i t h in omega arith

-- Suppose that thread `c` is the current one with fewer than its priority of interrupts in its turn so
-- far, or with priority 0, and that no thread has a priority above `p`, a positive uint8_t. Then,
-- whatever frames the timer interrupts find, a thread that can run is the current one after at most
-- `p` times as many of them as there are threads.
pub schedule_fair :
    (frames : ℕ → ℕ) (s : Scheduler) (c j p : ℕ) (t : Thread)
    → s.current_thread ≡ some c
    → get_elem? s.threads c ≡ some t
    → (t.work < t.priority) ⊎ (t.priority ≡ 0)
    → 1 ≤ p
    → p < 256
    → ((i : ℕ) → priority_at s.threads i ≤ p)
    → runs_at s.threads j ≡ true
    → (n : ℕ) × (n ≤ p * length s.threads) × ((ticks n frames s).current_thread ≡ some j)
schedule_fair frames s c j p t at found turn_on pos small most can =
    let here = get_elem?-lt s.threads c t found in
    let (to, lo, hi) = distance_lem (length s.threads) c j here (runs_at-some s.threads j can).0 in
    let d = distance (length s.threads) c j in
    let (r, le, left) =
      turn_begun t p turn_on (omega (arith, priority_at-some s.threads c t found, most c)) pos in
    let whole : (d - 1) * p + p ≤ length s.threads * p =
      product_le (length s.threads) (d - 1) p (omega arith) in
    let (n, few, done) =
      reached p pos ((d - 1) * p + r) (d - 1) r c j frames s t small (omega arith) (omega arith)
        most at found left here
        (let z : c + (d - 1 + 1) ≡ c + d = omega arith in ap (λ x. x % length s.threads) z ∙ to)
        can in
    (n, omega arith, done)
