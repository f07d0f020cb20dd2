-- ===== src/Kernel/Process/Switch.antt =====
-- What `schedule` does with the thread that `pick_next_runnable` picks.
use mathlib.Core.Option
use plum_os.Prelude.{
  ℕ, ◌+◌, ◌%◌, ◌≤◌, ◌<◌, ◌≡◌, refl, sym, ap, ◌∙◌, subst, ◌≢◌, ◌⊎◌, inl, inr, true, false, some,
  arith, length, get_elem?,
}
use plum_os.Kernel.Process.{
  Thread, Scheduler, can_run, runs_at, pick_next_runnable, modify, switch_to, resume, schedule_from,
  schedule,
}
use plum_os.Kernel.Process.RoundRobin.{
  length-modify, get_elem?-modify_self, get_elem?-modify_ne, runs_at-modify, runs_at-some, Skips,
  pick_lem,
}

abbrev pub rested : Thread → Thread
rested t = record t { work = 0 }

-- The switch from `s` to thread `next` with `r`, a frame and the state that is left: the frame is
-- the one that `s` has for that thread, its kernel stack is loaded for system calls and for
-- interrupts alike, it can run, its entry has changed only in that its `work` starts from 0 again,
-- no thread has changed its state, and the other threads are as they were.
pub record Switched (s : Scheduler) (next : ℕ) (r : ℕ × Scheduler) : Type 0 where
  pub thread : Thread
  pub is_current : r.1.current_thread ≡ some next
  pub found : get_elem? s.threads next ≡ some thread
  pub restarted : get_elem? r.1.threads next ≡ some (rested thread)
  pub frame : r.0 ≡ thread.regs
  pub stack : r.1.current_kernel_stack ≡ thread.kernel_stack
  pub interrupt_stack : r.1.rsp0 ≡ thread.kernel_stack
  pub runs : can_run thread.state ≡ true
  pub size : length r.1.threads ≡ length s.threads
  pub states : (j : ℕ) → runs_at r.1.threads j ≡ runs_at s.threads j
  pub others : (j : ℕ) → next ≢ j → get_elem? r.1.threads j ≡ get_elem? s.threads j

resume-some :
    (regs next : ℕ) (s : Scheduler) (t : Thread)
    → get_elem? (modify s.threads next rested) next ≡ some (rested t)
    → resume regs s (some next) ≡ (
      t.regs,
      record s {
        threads = modify s.threads next rested;
        current_thread = some next;
        current_kernel_stack = t.kernel_stack;
        rsp0 = t.kernel_stack;
      },
    )
unfolding resume switch_to
resume-some regs next s t e = rw e

resume_lem :
    (regs next : ℕ) (s : Scheduler)
    → runs_at s.threads next ≡ true
    → Switched s next (resume regs s (some next))
resume_lem regs next s can =
    let (lt, (t, found, ok)) = runs_at-some s.threads next can in
    let found' : get_elem? (modify s.threads next rested) next ≡ some (rested t) =
      get_elem?-modify_self s.threads next rested ∙ ap (Option.map rested) found in
    subst (Switched s next) (sym (resume-some regs next s t found')) (record {
      thread = t;
      is_current = refl;
      found = found;
      restarted = found';
      frame = refl;
      stack = refl;
      interrupt_stack = refl;
      runs = ok;
      size = length-modify s.threads next rested;
      states = λ j. runs_at-modify s.threads next j rested (λ x. refl);
      others = λ j ne. get_elem?-modify_ne s.threads next j rested ne;
    })

-- The state once the frame of thread `c` is saved.
abbrev pub saved : ℕ → ℕ → Scheduler → Scheduler
saved regs c s = record s { threads = modify s.threads c (λ t. record t { regs = regs }) }

pub length-saved : (regs c : ℕ) (s : Scheduler) → length (saved regs c s).threads ≡ length s.threads
length-saved regs c s = length-modify s.threads c _

pub runs_at-saved :
    (regs c : ℕ) (s : Scheduler) (j : ℕ) → runs_at (saved regs c s).threads j ≡ runs_at s.threads j
runs_at-saved regs c s j = runs_at-modify s.threads c j _ (λ t. refl)

module _ (c : ℕ) (s : Scheduler) (at : s.current_thread ≡ some c)
    (here : c < length s.threads) where
  -- `schedule` in thread `c` saves the frame of the thread that was interrupted. If no thread can
  -- run it returns that frame; otherwise it switches, from the state in which the frame is saved,
  -- to the first thread after `c` in cyclic order that can run, `c` itself coming last.
  pub schedule_lem :
      (regs : ℕ)
      → (((j : ℕ) → runs_at s.threads j ≡ false) × (schedule regs s ≡ (regs, saved regs c s)))
        ⊎ ((k : ℕ) × (1 ≤ k)
            × (k ≤ length s.threads)
            × Skips s.threads c 1 k
            × Switched (saved regs c s) ((c + k) % length s.threads) (schedule regs s))
  unfolding schedule schedule_from resume
  schedule_lem regs =
      let s' = saved regs c s in
      let size : length s'.threads ≡ length s.threads = length-saved regs c s in
      let runs : (j : ℕ) → runs_at s'.threads j ≡ runs_at s.threads j = runs_at-saved regs c s in
      let run : schedule regs s ≡ resume regs s' (pick_next_runnable s') =
        ap (schedule_from regs s) at in
      elim (pick_lem s' c (rw at) (omega (arith, size))) [
        | inl (none_left, idle) ↦
            inl ((λ j. sym (runs j) ∙ idle j), run ∙ ap (resume regs s') none_left)
        | inr (k, found, lo, hi, can, skips) ↦
            let at_len : ℕ → ℕ = λ n. (c + k) % n in
            let w = resume_lem regs (at_len (length s'.threads)) s' can in
            inr (
              k,
              lo,
              omega (arith, size),
              (λ j a b.
                  sym (runs ((c + j) % length s.threads))
                  ∙ ap (λ n. runs_at s'.threads ((c + j) % n)) (sym size)
                  ∙ skips j a b),
              subst (λ x. Switched s' x (schedule regs s)) (ap at_len size)
                  (subst (Switched s' (at_len (length s'.threads)))
                    (sym (run ∙ ap (resume regs s') found)) w),
            )
      ]
