-- ===== src/Kernel/Process/Turns.antt =====
-- One timer interrupt: the running thread's turn goes on, or the next thread begins one.
use mathlib.Core.Option
use plum_os.Prelude.{
  ℕ, zero, suc, ◌+◌, ◌-◌, ◌%◌, ◌≤◌, ◌<◌, ◌≡◌, refl, sym, ap, ◌∙◌, subst, ◌⊎◌, inl, inr, true, false,
  none, some, List, [], ◌∷◌, arith, ◌==◌, ==_iff, Bool-cases, length, get_elem?,
}
use plum_os.Kernel.Process.{Thread, Scheduler, runs_at, modify, schedule}
use plum_os.Kernel.Process.RoundRobin.{Skips, length-modify, runs_at-modify, get_elem?-modify_self}
use plum_os.Kernel.Process.Switch.{
  rested, Switched, saved, schedule_lem, length-saved, runs_at-saved,
}
use plum_os.Kernel.Process.Timer.{worked, is_over, turn, timer_at, timer}

-- The priority of a thread, 0 out of range.
abbrev pub priority_at : List Thread → ℕ → ℕ
priority_at ts i = elim (get_elem? ts i) [ none ↦ 0 | some t ↦ t.priority ]

pub priority_at-modify :
    (ts : List Thread) (i j : ℕ) (f : Thread → Thread)
    → ((t : Thread) → (f t).priority ≡ t.priority)
    → priority_at (modify ts i f) j ≡ priority_at ts j
priority_at-modify [] i j f h = refl
priority_at-modify (t ∷ ts) zero zero f h = h t
priority_at-modify (t ∷ ts) zero (suc j) f h = refl
priority_at-modify (t ∷ ts) (suc i) zero f h = refl
priority_at-modify (t ∷ ts) (suc i) (suc j) f h = priority_at-modify ts i j f h

pub priority_at-some :
    (ts : List Thread) (i : ℕ) (t : Thread)
    → get_elem? ts i ≡ some t
    → priority_at ts i ≡ t.priority
priority_at-some ts i t e = rw (e, priority_at) refl

-- The thread's turn is over with the `r`-th interrupt from now, or before.
abbrev pub Left : Thread → ℕ → Type 0
Left t r = (1 ≤ r) × ((t.work + r ≡ t.priority) ⊎ (t.priority ≡ 0))

-- While the turn goes on, there is one interrupt less to go.
pub turn_goes_on :
    (t : Thread) (r : ℕ)
    → t.priority < 256
    → Left t r
    → is_over (worked t) ≡ false
    → (2 ≤ r) × Left (worked t) (r - 1)
turn_goes_on t r small (pos, inr none_) go = absurd (ground arith)
turn_goes_on t r small (pos, inl sum) go =
    let more : 2 ≤ r = ground arith in (more, (omega arith, inl (omega arith)))

-- What is left of a turn that is going on.
pub turn_begun :
    (t : Thread) (p : ℕ)
    → (t.work < t.priority) ⊎ (t.priority ≡ 0)
    → t.priority ≤ p
    → 1 ≤ p
    → (r : ℕ) × (r ≤ p) × Left t r
turn_begun t p (inl on) le pos =
    (t.priority - t.work, omega arith, (omega arith, inl (omega arith)))
turn_begun t p (inr never) le pos = (1, pos, (omega arith, inr never))

-- The state once the running thread's `work` is raised.
abbrev pub raised : ℕ → Scheduler → Scheduler
raised c s = record s { threads = modify s.threads c worked }

timer-cases :
    (regs c : ℕ) (s : Scheduler) (t : Thread)
    → s.current_thread ≡ some c
    → get_elem? s.threads c ≡ some t
    → ((is_over (worked t) ≡ true) × (timer regs s ≡ schedule regs (raised c s)))
      ⊎ ((is_over (worked t) ≡ false) × (timer regs s ≡ (regs, raised c s)))
unfolding timer timer_at turn
timer-cases regs c s t at here =
    let now : get_elem? (modify s.threads c worked) c ≡ some (worked t) =
      get_elem?-modify_self s.threads c worked ∙ ap (Option.map worked) here in
    let run : timer regs s ≡ turn regs (raised c s) (some (worked t)) =
      ap (timer_at regs s) at ∙ ap (turn regs (raised c s)) now in
    elim (Bool-cases (is_over (worked t))) [
      | inl e ↦ inl (e, run ∙ rw e refl)
      | inr e ↦ inr (e, run ∙ rw e refl)
    ]

-- A switch keeps the priorities, and the new thread's turn takes as many interrupts as its priority.
priority_at-Switched :
    (s : Scheduler) (next : ℕ) (r : ℕ × Scheduler)
    → Switched s next r
    → (j : ℕ) → priority_at r.1.threads j ≡ priority_at s.threads j
priority_at-Switched s next r w j = elim (Bool-cases (next == j)) [
  | inl e ↦
      let same = (==_iff next j).0 e in
      ap (priority_at r.1.threads) (sym same)
      ∙ priority_at-some r.1.threads next (rested w.thread) w.restarted
      ∙ sym (priority_at-some s.threads next w.thread w.found)
      ∙ ap (priority_at s.threads) same
  | inr e ↦ ap (λ x. elim x [ none ↦ 0 | some t ↦ t.priority ]) (w.others j (ground arith))
]

first_turn : (t : Thread) (p : ℕ) → 1 ≤ p → t.priority ≤ p → (r : ℕ) × (r ≤ p) × Left (rested t) r
first_turn t p pos le = elim (Bool-cases (t.priority == 0)) [
  | inl e ↦ (1, pos, (omega arith, inr (ground arith)))
  | inr e ↦ (t.priority, le, (ground arith, inl (omega arith)))
]

-- After a turn of thread `c` that is over, the thread `k` places ahead begins one of at most `p`
-- interrupts.
pub record Handed (p c k : ℕ) (s next : Scheduler) : Type 0 where
  pub at_least : 1 ≤ k
  pub at_most : k ≤ length s.threads
  pub skips : Skips s.threads c 1 k
  pub is_current : next.current_thread ≡ some ((c + k) % length s.threads)
  pub size : length next.threads ≡ length s.threads
  pub priorities : (i : ℕ) → priority_at next.threads i ≡ priority_at s.threads i
  pub states : (i : ℕ) → runs_at next.threads i ≡ runs_at s.threads i
  pub thread : Thread
  pub found : get_elem? next.threads ((c + k) % length s.threads) ≡ some thread
  pub left : (r : ℕ) × (r ≤ p) × Left thread r

module _ (p : ℕ) (pos : 1 ≤ p) where
  -- `schedule` hands over, as long as some thread can run.
  schedule-Handed :
      (regs c j : ℕ) (s : Scheduler)
      → s.current_thread ≡ some c
      → c < length s.threads
      → runs_at s.threads j ≡ true
      → ((i : ℕ) → priority_at s.threads i ≤ p)
      → (k : ℕ) × Handed p c k s (schedule regs s).1
  schedule-Handed regs c j s at here can most = elim (schedule_lem c s at here regs) [
    | inl (idle, _) ↦ let q = idle j in cc
    | inr (k, lo, hi, skips, w) ↦
        let next = (c + k) % length s.threads in
        let kept : (i : ℕ) → priority_at (saved regs c s).threads i ≡ priority_at s.threads i =
          λ i. priority_at-modify s.threads c i (λ t. record t { regs = regs }) (λ t. refl) in
        let known = priority_at-some (saved regs c s).threads next w.thread w.found in
        (
          k,
          record {
            at_least = lo;
            at_most = hi;
            skips = skips;
            is_current = w.is_current;
            size = w.size ∙ length-saved regs c s;
            priorities =
                λ i. priority_at-Switched (saved regs c s) next (schedule regs s) w i ∙ kept i;
            states = λ i. w.states i ∙ runs_at-saved regs c s i;
            thread = rested w.thread;
            found = w.restarted;
            left = first_turn w.thread p pos (omega (arith, known, kept next, most next));
          },
        )
  ]

  -- A timer interrupt hands over or leaves the turn going.
  pub timer-Handed :
      (regs c j : ℕ) (s : Scheduler) (t : Thread)
      → s.current_thread ≡ some c
      → get_elem? s.threads c ≡ some t
      → c < length s.threads
      → runs_at s.threads j ≡ true
      → ((i : ℕ) → priority_at s.threads i ≤ p)
      → ((k : ℕ) × Handed p c k s (timer regs s).1)
        ⊎ ((is_over (worked t) ≡ false) × ((timer regs s).1 ≡ raised c s))
  timer-Handed regs c j s t at found here can most = elim (timer-cases regs c s t at found) [
    | inr (go, run) ↦ inr (go, ap (λ x. x.1) run)
    | inl (over, run) ↦
        let s' = raised c s in
        let size : length s'.threads ≡ length s.threads = length-modify s.threads c worked in
        let kept : (i : ℕ) → priority_at s'.threads i ≡ priority_at s.threads i =
          λ i. priority_at-modify s.threads c i worked (λ x. refl) in
        let runs : (i : ℕ) → runs_at s'.threads i ≡ runs_at s.threads i =
          λ i. runs_at-modify s.threads c i worked (λ x. refl) in
        let (k, h) =
          schedule-Handed regs c j s' at (omega (arith, size)) (runs j ∙ can)
            (λ i. omega (arith, kept i, most i)) in
        let place = ap (λ z. (c + k) % z) size in
        inl (
          k,
          subst (Handed p c k s) (sym (ap (λ x. x.1) run)) (record {
            at_least = h.at_least;
            at_most = omega (arith, size, h.at_most);
            skips = λ i lo hi.
                sym (runs ((c + i) % length s.threads))
                ∙ ap (λ z. runs_at s'.threads ((c + i) % z)) (sym size)
                ∙ h.skips i lo hi;
            is_current = h.is_current ∙ ap some place;
            size = h.size ∙ size;
            priorities = λ i. h.priorities i ∙ kept i;
            states = λ i. h.states i ∙ runs i;
            thread = h.thread;
            found = ap (get_elem? (schedule regs s').1.threads) (sym place) ∙ h.found;
            left = h.left;
          }),
        )
  ]
