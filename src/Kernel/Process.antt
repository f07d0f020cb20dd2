-- ===== src/Kernel/Process.antt =====
-- src/kernel/Process/Process_manager.cpp: threads, the round robin over them, and their file
-- descriptors. Pointers to frames, stacks and objects are numbers; `ThreadEntry` code, the register
-- frames' contents and the assembly that loads them are left out.
pub mod RoundRobin
pub mod Switch
pub mod Exit
pub mod Timer
pub mod Turns
pub mod Fairness
mod Tests
use mathlib.Core.Option
use plum_os.Prelude.{
  ℕ, zero, suc, ◌+◌, ◌-◌, ◌*◌, ◌%◌, Bool, true, false, Option, none, some, List, [], ◌∷◌, ◌++◌,
  ◌==◌, if◌then◌else◌, length, get_elem?, get_or, replicate,
}

pub data ThreadState : Type 0 where
  ready running blocked terminated : ThreadState

-- `OpenFile* file` of an entry is the key of the open file; `none` is nullptr.
pub record FdEntry : Type 0 where
  pub file : Option ℕ
  pub flags : ℕ

pub record Thread : Type 0 where
  pub regs : ℕ
  pub kernel_stack : ℕ
  pub user_stack : ℕ
  pub state : ThreadState
  pub fd_table : List FdEntry
  pub priority : ℕ
  pub work : ℕ

-- The globals. `current_thread` is an int whose only negative value is -1: `none`.
pub record Scheduler : Type 0 where
  pub threads : List Thread
  pub current_thread : Option ℕ
  pub current_kernel_stack : ℕ
  pub rsp0 : ℕ

abbrev pub max_fds : ℕ
max_fds = 64

abbrev pub stack_size : ℕ
stack_size = 1024 * 96

abbrev pub empty_entry : FdEntry
empty_entry = record { file = none; flags = 0 }

-- `sizeof(IDT::ISR_Registers)` and the two addresses that `heap::malloc_align` returns come in as
-- arguments. The frame that is built on the new stack is left out.
unfoldable pub create_thread : ℕ → ℕ → ℕ → ℕ → Scheduler → Scheduler
create_thread frame_bytes kernel_base user_base priority s =
    let kernel_stack = kernel_base + stack_size in
    record s {
      threads =
          s.threads
          ++ record {
            regs = kernel_stack - frame_bytes;
            kernel_stack = kernel_stack;
            user_stack = user_base + stack_size;
            state = running;
            fd_table = replicate max_fds empty_entry;
            priority = priority;
            work = 0;
          }
            ∷ [];
    }

-- `s != Terminated && s != Blocked`
abbrev pub can_run : ThreadState → Bool
can_run ready = true
can_run running = true
can_run blocked = false
can_run terminated = false

abbrev pub runs_at : List Thread → ℕ → Bool
runs_at ts i = elim (get_elem? ts i) [ none ↦ false | some t ↦ can_run t.state ]

-- The loop of `pick_next_runnable`, with `n` rounds left, at round `i`.
unfoldable pub pick_from : ℕ → ℕ → ℕ → List Thread → Option ℕ
pick_from zero i start ts = none
pick_from (suc n) i start ts =
    let idx = (start + i) % length ts in
    let rest = pick_from n (i + 1) start ts in if runs_at ts idx then some idx else rest

unfoldable pub pick_next_runnable : Scheduler → Option ℕ
unfolding pick_from
pick_next_runnable s =
    if length s.threads == 0
    then none
    else pick_from (length s.threads) 1 (elim s.current_thread [ none ↦ 0 | some i ↦ i ]) s.threads

abbrev pub modify {ℓ} : {A : Type ℓ} → List A → ℕ → (A → A) → List A
modify [] i f = []
modify (x ∷ xs) zero f = f x ∷ xs
modify (x ∷ xs) (suc i) f = x ∷ modify xs i f

-- The switch to a thread, by its index and what the vector has there: its stack is loaded, and its
-- saved frame is the result. An index out of range is undefined behaviour in C++ and does nothing
-- here; `pick_next_runnable` returns only indices of the vector.
unfoldable pub switch_to : ℕ → Option Thread → Scheduler → Option ℕ × Scheduler
switch_to next none s = (none, s)
switch_to next (some t) s = (
  some t.regs,
  record s {
    current_thread = some next;
    current_kernel_stack = t.kernel_stack;
    rsp0 = t.kernel_stack;
  },
)

-- `schedule` once the frame is saved, with what `pick_next_runnable` returns.
unfoldable pub resume : ℕ → Scheduler → Option ℕ → ℕ × Scheduler
resume regs s none = (regs, s)
resume regs s (some next) =
    let ts = modify s.threads next (λ t. record t { work = 0 }) in
    let (frame, s') = switch_to next (get_elem? ts next) (record s { threads = ts }) in
    (Option.get_or frame regs, s')

-- `schedule` with the current thread, called with the frame of the thread that was interrupted; it
-- returns the frame to restore.
unfoldable pub schedule_from : ℕ → Scheduler → Option ℕ → ℕ × Scheduler
schedule_from regs s none = (regs, s)
schedule_from regs s (some i) =
    let s' = record s { threads = modify s.threads i (λ t. record t { regs = regs }) } in
    resume regs s' (pick_next_runnable s')

unfoldable pub schedule : ℕ → Scheduler → ℕ × Scheduler
unfolding schedule_from
schedule regs s = schedule_from regs s s.current_thread

-- `exit_current` up to the choice of the next thread.
unfoldable pub end_current : Scheduler → Option ℕ → Scheduler
end_current s none = s
end_current s (some i) = record s {
  threads = modify s.threads i (λ t. record t { state = terminated });
}

-- The other half: the frame that is restored, or `none` where the processor halts for good.
unfoldable pub leave : Scheduler → Option ℕ → Option ℕ × Scheduler
leave s none = (none, record s { current_thread = none })
leave s (some next) = switch_to next (get_elem? s.threads next) s

unfoldable pub exit_current : Scheduler → Option ℕ × Scheduler
unfolding end_current leave
exit_current s = let s' = end_current s s.current_thread in leave s' (pick_next_runnable s')
