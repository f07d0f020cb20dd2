-- ===== src/Kernel/Process/Exit.antt =====
-- What `exit_current` leaves of the running thread, and which thread it goes on with.
use plum_os.Prelude.{
  ℕ, zero, suc, ◌+◌, ◌%◌, ◌≤◌, ◌<◌, ◌≡◌, refl, sym, ap, ◌∙◌, ◌≢◌, ◌⊎◌, inl, inr, true, false, none,
  some, List, [], ◌∷◌, arith, ltb, ltb→lt, Bool-cases, length, get_elem?,
}
use plum_os.Kernel.Process.{
  Thread, Scheduler, can_run, runs_at, pick_next_runnable, modify, switch_to, leave, end_current,
  exit_current, terminated,
}
use plum_os.Kernel.Process.RoundRobin.{
  length-modify, get_elem?-modify_ne, runs_at-some, Skips, pick_lem, ahead_mod,
}

-- The state once thread `c` has ended.
abbrev pub ended : ℕ → Scheduler → Scheduler
ended c s = record s { threads = modify s.threads c (λ t. record t { state = terminated }) }

-- The state in which thread `next`, whose record is `t`, is the current one.
abbrev pub running_on : ℕ → Thread → Scheduler → Scheduler
running_on next t s = record s {
  current_thread = some next;
  current_kernel_stack = t.kernel_stack;
  rsp0 = t.kernel_stack;
}

ahead_ne : (n c j : ℕ) → c < n → 1 ≤ j → j < n → c ≢ (c + j) % n
ahead_ne n c j h lo hi = ground (arith, ahead_mod n c j h (omega arith))

ahead_self : (n c : ℕ) → c < n → (c + n) % n ≡ c
ahead_self n c h = ground (arith, ahead_mod n c n h (omega arith))

runs_at-terminated :
    (ts : List Thread) (c : ℕ)
    → runs_at (modify ts c (λ t. record t { state = terminated })) c ≡ false
runs_at-terminated [] c = refl
runs_at-terminated (t ∷ ts) zero = refl
runs_at-terminated (t ∷ ts) (suc c) = runs_at-terminated ts c

runs_at-ended : (c : ℕ) (s : Scheduler) → runs_at (ended c s).threads c ≡ false
runs_at-ended c s = runs_at-terminated s.threads c

runs_at-ended_ne :
    (c j : ℕ) (s : Scheduler) → c ≢ j → runs_at (ended c s).threads j ≡ runs_at s.threads j
runs_at-ended_ne c j s ne =
    ap (λ o. elim o [ none ↦ false | some t ↦ can_run t.state ])
      (get_elem?-modify_ne s.threads c j _ ne)

leave-some :
    (s : Scheduler) (next : ℕ) (t : Thread)
    → get_elem? s.threads next ≡ some t
    → leave s (some next) ≡ (some t.regs, running_on next t s)
unfolding leave switch_to
leave-some s next t e = rw e

-- `exit_current` in thread `c` ends it for good. If no other thread can run, the processor halts
-- and there is no current thread; otherwise it loads the frame and the stacks of the first thread
-- after `c` in cyclic order that can run, which is another one than `c`.
pub exit_current_lem :
    (c : ℕ) (s : Scheduler)
    → s.current_thread ≡ some c
    → c < length s.threads
    → (((j : ℕ) → c ≢ j → runs_at s.threads j ≡ false)
        × (exit_current s ≡ (none, record (ended c s) { current_thread = none })))
      ⊎ ((k : ℕ) × (t : Thread) × (1 ≤ k)
          × (k < length s.threads)
          × Skips s.threads c 1 k
          × (get_elem? s.threads ((c + k) % length s.threads) ≡ some t)
          × (can_run t.state ≡ true)
          × (exit_current s ≡ (some t.regs, running_on ((c + k) % length s.threads) t (ended c s))))
unfolding exit_current end_current leave
exit_current_lem c s at here =
    let s' = ended c s in
    let n = length s.threads in
    let size : length s'.threads ≡ n = length-modify s.threads c _ in
    let run : exit_current s ≡ leave s' (pick_next_runnable s') =
      ap (λ o. leave (end_current s o) (pick_next_runnable (end_current s o))) at in
    elim (pick_lem s' c (rw at) (omega (arith, size))) [
      | inl (none_left, idle) ↦
          inl ((λ j ne. sym (runs_at-ended_ne c j s ne) ∙ idle j), run ∙ ap (leave s') none_left)
      | inr (k, found, lo, hi, can, skips) ↦
          let to : (c + k) % length s'.threads ≡ (c + k) % n = ap (λ n. (c + k) % n) size in
          let can' : runs_at s'.threads ((c + k) % n) ≡ true =
            ap (runs_at s'.threads) (sym to) ∙ can in
          let less : k < n = elim (Bool-cases (ltb k n)) [
            | inl lt ↦ ltb→lt k n lt
            | inr ge ↦
                let all : k ≡ n = ground arith in
                let e : runs_at s'.threads ((c + k) % n) ≡ false =
                  ap (λ x. runs_at s'.threads ((c + x) % n)) all
                  ∙ ap (runs_at s'.threads) (ahead_self n c here)
                  ∙ runs_at-ended c s in
                cc
          ] in
          let other = ahead_ne n c k here lo less in
          let can'' = sym (runs_at-ended_ne c ((c + k) % n) s other) ∙ can' in
          let (lt, (t, there, ok)) = runs_at-some s.threads ((c + k) % n) can'' in
          let there' = get_elem?-modify_ne s.threads c ((c + k) % n) _ other ∙ there in
          inr (
            k,
            t,
            lo,
            less,
            (λ j a b.
                sym (runs_at-ended_ne c ((c + j) % n) s (ahead_ne n c j here a (omega arith)))
                ∙ ap (λ m. runs_at s'.threads ((c + j) % m)) (sym size)
                ∙ skips j a b),
            there,
            ok,
            run ∙ ap (leave s') (found ∙ ap some to) ∙ leave-some s' ((c + k) % n) t there',
          )
    ]
