-- ===== src/Kernel/Process/Timer.antt =====
-- src/arch/x86_64/IDT/handlers.cpp: what the interrupt handler does for the timer, interrupt 32, with
-- `get_thread` of src/kernel/Process/Process_manager.hpp. `Time::tick`, the handlers that others
-- have registered and the end of the interrupt are left out.
use plum_os.Prelude.{
  ℕ, zero, suc, ◌+◌, ◌%◌, Bool, true, false, ◌||◌, Option, none, some, ◌==◌, if◌then◌else◌,
  get_elem?,
}
use plum_os.Kernel.Process.{
  Thread, ThreadState, ready, running, blocked, terminated, Scheduler, modify, schedule,
}

-- `t->state == Terminated`
abbrev pub is_terminated : ThreadState → Bool
is_terminated ready = false
is_terminated running = false
is_terminated blocked = false
is_terminated terminated = true

-- `t->work++` on a uint8_t.
abbrev pub worked : Thread → Thread
worked t = record t { work = (t.work + 1) % 256 }

-- Is the turn of the thread over?
abbrev pub is_over : Thread → Bool
is_over t = is_terminated t.state || t.work == t.priority || t.priority == 0

-- The handler with the thread that `get_thread` returns, `c` being its index, once `work` is raised.
unfoldable pub turn : ℕ → Scheduler → Option Thread → ℕ × Scheduler
turn regs s none = (regs, s)
turn regs s (some t) = if is_over t then schedule regs s else (regs, s)

unfoldable pub timer_at : ℕ → Scheduler → Option ℕ → ℕ × Scheduler
unfolding turn
timer_at regs s none = (regs, s)
timer_at regs s (some c) =
    let ts = modify s.threads c worked in turn regs (record s { threads = ts }) (get_elem? ts c)

-- A timer interrupt with the frame of the running thread: the frame to restore, and the new state.
unfoldable pub timer : ℕ → Scheduler → ℕ × Scheduler
unfolding timer_at
timer regs s = timer_at regs s s.current_thread

-- `n` timer interrupts, the `i`-th of which finds the running thread's frame at `frames i`.
unfoldable pub ticks : ℕ → (ℕ → ℕ) → Scheduler → Scheduler
ticks zero frames s = s
ticks (suc n) frames s = ticks n (λ i. frames (i + 1)) (timer (frames 0) s).1
