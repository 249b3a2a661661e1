-- ===== src/Process/Tests.antt =====
-- kernel/core/process.c with two processes, and on a small memory.
use os_ax.Base.{ℕ, ◌+◌, ◌-◌, ◌≡◌, refl, false, some, List, [], ◌∷◌, ◌++◌, arith, leb, if◌then◌else◌}
use os_ax.Process.{
  Process, ProcessState, ready, running, Processes, Memory, schedule, yield, process_create,
}
use os_ax.Process.Schedule.{
  IsValid, NoneReady, RunningAt, ArePlaced, state_at, schedule_lem, yield-first,
}

abbrev process_at : ℕ → ℕ → ProcessState → Process
process_at address pid state = record {
  address = address;
  pid = pid;
  name = [];
  state = state;
  page_dir = 0x3000;
  kernel_stack = 0;
  user_stack = 0;
  priority = 10;
  time_slice = 10;
  rip = 0;
  rsp = 0;
  rbp = 0;
  rflags = 0x202;
  cr3 = 0x3000;
}

-- The second process of two runs.
abbrev two : Processes
two = record {
  process_list = process_at 0x1000 2 ready ∷ process_at 0x2000 1 running ∷ [];
  current_process = 0x2000;
  next_pid = 3;
  current_directory = 0x3000;
}

two-IsValid : IsValid two
unfolding ArePlaced RunningAt
two-IsValid = record {
  placed = (omega arith, (omega arith, tt));
  one_runs = ((λ e. cc), ((λ e. refl), tt));
}

schedule_lem_example :
    IsValid (schedule two)
    × ((before : List Process) (p : Process) (after : List Process)
        → two.process_list ≡ before ++ p ∷ after
        → NoneReady before
        → p.state ≡ ready
        → (schedule two).current_process ≡ p.address)
    × (NoneReady two.process_list → schedule two ≡ two)
schedule_lem_example = schedule_lem two two-IsValid

yield-first_example :
    let p = process_at 0x1000 2 running in
    let s = record two {
      process_list = p ∷ process_at 0x2000 1 ready ∷ [];
      current_process = p.address;
    } in
    ((yield s).current_process ≡ p.address)
    × (state_at p.address (yield s).process_list ≡ some ready)
yield-first_example =
    yield-first two (process_at 0x1000 2 running) (process_at 0x2000 1 ready ∷ []) (omega arith)

-- A memory that is handed out from below, up to a limit.
abbrev limit : ℕ
limit = 20000

abbrev grant : ℕ → ℕ → ℕ × ℕ
grant n st = if leb (st + n) limit then (4096 + st, st + n) else (0, st)

abbrev small_memory : Memory
small_memory = record {
  State = ℕ;
  kmalloc = grant;
  kfree = λ a st. a - 4096;
  kmalloc_virtual = grant;
  kfree_virtual = λ a n st. a - 4096;
  copy_page_dir = λ to from st. st;
}

create_null : (process_create small_memory 0x3000 [] 0x5000 false two 0).0 ≡ 0
unfolding process_create
create_null = refl
