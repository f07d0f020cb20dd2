-- ===== src/Kernel/Process/Tests.antt =====
-- Runs of the scheduler with three threads, of which the second is blocked.
use plum_os.Prelude.{
  ℕ, zero, suc, ◌+◌, ◌*◌, ◌%◌, ◌≤◌, ◌<◌, ◌≡◌, refl, ◌≢◌, ◌⊎◌, inl, true, false, none, some, [], ◌∷◌,
  arith, get_elem?,
}
use plum_os.Kernel.Process.{
  Thread, ThreadState, Scheduler, ready, running, blocked, can_run, runs_at, pick_next_runnable,
  pick_from, schedule, schedule_from, resume, switch_to, exit_current,
}
use plum_os.Kernel.Process.RoundRobin.{Skips}
use plum_os.Kernel.Process.Switch.{Switched, saved, schedule_lem}
use plum_os.Kernel.Process.Exit.{ended, running_on, exit_current_lem}
use plum_os.Kernel.Process.Timer.{ticks, timer, timer_at, turn}
use plum_os.Kernel.Process.Turns.{priority_at}
use plum_os.Kernel.Process.Fairness.{schedule_fair}

abbrev thread : ℕ → ThreadState → Thread
thread n state = record {
  regs = 1000 + n;
  kernel_stack = 2000 + n;
  user_stack = 3000 + n;
  state = state;
  fd_table = [];
  priority = 3;
  work = 0;
}

abbrev three : Scheduler
three = record {
  threads = thread 0 running ∷ thread 1 blocked ∷ thread 2 ready ∷ [];
  current_thread = some 0;
  current_kernel_stack = 2000;
  rsp0 = 2000;
}

-- The blocked thread is passed over, and the round begins again.
two_ticks : (schedule 8 (schedule 7 three).1).0 ≡ 7
unfolding schedule schedule_from resume switch_to pick_next_runnable pick_from
two_ticks = refl

schedule_lem_example :
    (((j : ℕ) → runs_at three.threads j ≡ false) × (schedule 7 three ≡ (7, saved 7 0 three)))
    ⊎ ((k : ℕ) × (1 ≤ k)
        × (k ≤ 3)
        × Skips three.threads 0 1 k
        × Switched (saved 7 0 three) ((0 + k) % 3) (schedule 7 three))
schedule_lem_example = schedule_lem 0 three refl (omega arith) 7

three_priorities : (i : ℕ) → priority_at three.threads i ≤ 3
three_priorities zero = omega arith
three_priorities (suc zero) = omega arith
three_priorities (suc (suc zero)) = omega arith
three_priorities (suc (suc (suc i))) = omega arith

-- The third thread has its turn with the third interrupt.
third_turn : (ticks 3 (λ i. 7000 + i) three).current_thread ≡ some 2
unfolding ticks timer timer_at turn schedule schedule_from resume switch_to pick_next_runnable
    pick_from
third_turn = refl

schedule_fair_example :
    (n : ℕ) × (n ≤ 3 * 3) × ((ticks n (λ i. 7000 + i) three).current_thread ≡ some 2)
schedule_fair_example =
    schedule_fair (λ i. 7000 + i) three 0 2 3 (thread 0 running) refl refl (inl (omega arith))
      (omega arith) (omega arith) three_priorities refl

exit_current_lem_example :
    (((j : ℕ) → 0 ≢ j → runs_at three.threads j ≡ false)
      × (exit_current three ≡ (none, record (ended 0 three) { current_thread = none })))
    ⊎ ((k : ℕ) × (t : Thread) × (1 ≤ k)
        × (k < 3)
        × Skips three.threads 0 1 k
        × (get_elem? three.threads ((0 + k) % 3) ≡ some t)
        × (can_run t.state ≡ true)
        × (exit_current three ≡ (some t.regs, running_on ((0 + k) % 3) t (ended 0 three))))
exit_current_lem_example = exit_current_lem 0 three refl (omega arith)
