-- ===== src/Process.antt =====
-- kernel/core/process.c and include/core/process.h: processes and the scheduler. The list of
-- processes is a list of control blocks, each with its address; a pointer is an address (0 is NULL).
-- The memory that blocks, page directories and stacks come from is a parameter.
pub mod Schedule
mod Tests
use os_ax.Base.{
  ℕ, zero, suc, ◌+◌, ◌-◌, ◌^◌, Bool, true, false, not, ◌&&◌, Option, none, some, List, [], ◌∷◌,
  ◌==◌, if◌then◌else◌, take,
}
use os_ax.Base.Words.{u32, u64}
use os_ax.Kstring.{CString}

-- `process_state_t`
pub data ProcessState : Type 0 where
  ready running blocked terminated : ProcessState

-- `process_t`: the block at `address`, with the registers of its context that are set.
pub record Process : Type 0 where
  pub address : ℕ
  pub pid : ℕ
  pub name : CString
  pub state : ProcessState
  pub page_dir : ℕ
  pub kernel_stack : ℕ
  pub user_stack : ℕ
  pub priority : ℕ
  pub time_slice : ℕ
  pub rip : ℕ
  pub rsp : ℕ
  pub rbp : ℕ
  pub rflags : ℕ
  pub cr3 : ℕ

-- The statics of the file, and the page directory that is switched to.
pub record Processes : Type 0 where
  pub process_list : List Process
  pub current_process : ℕ
  pub next_pid : ℕ
  pub current_directory : ℕ

unfoldable pub process_init : Processes → Processes
process_init s = record s { process_list = []; current_process = 0; next_pid = 1 }

abbrev pub is_ready : Process → Bool
is_ready p = elim p.state [ ready ↦ true | running ↦ false | blocked ↦ false | terminated ↦ false ]

-- `p->state = state` for the process at an address.
unfoldable pub set_state : ℕ → ProcessState → List Process → List Process
set_state a state [] = []
set_state a state (p ∷ ps) =
    (if p.address == a then record p { state = state } else p) ∷ set_state a state ps

-- The loop of `schedule`.
unfoldable pub find_ready : List Process → Option Process
find_ready [] = none
find_ready (p ∷ ps) = let rest = find_ready ps in if is_ready p then some p else rest

-- `next` is not NULL.
unfoldable pub process_switch : Process → Processes → Processes
unfolding set_state
process_switch next s =
    if next.address == s.current_process
    then s
    else let old = s.current_process in
      let ps = if old == 0 then s.process_list else set_state old ready s.process_list in
      record s {
        current_process = next.address;
        process_list = set_state next.address running ps;
        current_directory = next.page_dir;
      }

unfoldable pub schedule : Processes → Processes
schedule s = elim (find_ready s.process_list) [ none ↦ s | some next ↦ process_switch next s ]

unfoldable pub yield : Processes → Processes
unfolding schedule set_state
yield s =
    if s.current_process == 0
    then s
    else schedule (record s { process_list = set_state s.current_process ready s.process_list })

-- The loop that takes a process out of the list.
unfoldable pub unlink : ℕ → List Process → List Process
unlink a [] = []
unlink a (p ∷ ps) = let rest = p ∷ unlink a ps in if p.address == a then ps else rest

-- The memory behind the processes: the heap, the virtual heap, and the copy of the kernel's page
-- directory into a new one.
pub record Memory : Type 1 where
  pub State : Type 0
  pub kmalloc : ℕ → State → ℕ × State
  pub kfree : ℕ → State → State
  pub kmalloc_virtual : ℕ → State → ℕ × State
  pub kfree_virtual : ℕ → ℕ → State → State
  pub copy_page_dir : ℕ → ℕ → State → State

abbrev pub stack_size : ℕ
stack_size = 8192

abbrev pub page_dir_size : ℕ
page_dir_size = 4096

-- `sizeof(process_t)`
abbrev pub pcb_size : ℕ
pcb_size = 280

module _ (memory : Memory) (kernel_page_dir : ℕ) where
  -- `process_destroy` of a block that is not NULL. The pointer to the current process stays.
  unfoldable pub process_destroy : Process → Processes → memory.State → Processes × memory.State
  unfolding unlink
  process_destroy proc s st =
      let st1 =
        if proc.kernel_stack == 0
        then st
        else memory.kfree_virtual (proc.kernel_stack - stack_size) stack_size st in
      let st2 =
        if proc.user_stack == 0
        then st1
        else memory.kfree_virtual (proc.user_stack - stack_size) stack_size st1 in
      let st3 =
        if proc.page_dir == kernel_page_dir
        then st2
        else memory.kfree_virtual proc.page_dir page_dir_size st2 in
      (
        record s { process_list = unlink proc.address s.process_list },
        memory.kfree proc.address st3,
      )

  -- The page directory of a new process, 0 if there is none to be had.
  unfoldable pub new_page_dir : Bool → memory.State → ℕ × memory.State
  new_page_dir is_kernel st =
      if is_kernel
      then (kernel_page_dir, st)
      else let (dir, st') = memory.kmalloc_virtual page_dir_size st in
        if dir == 0 then (0, st') else (dir, memory.copy_page_dir dir kernel_page_dir st')

  -- The block filled in.
  unfoldable pub new_process : ℕ → CString → ℕ → Bool → ℕ → ℕ → ℕ → Processes → Process
  new_process address name entry_point is_kernel page_dir kernel_stack user_stack s =
      let stack = if is_kernel then kernel_stack else user_stack in
      record {
        address = address;
        pid = s.next_pid;
        name = take 32 name;
        state = ready;
        page_dir = page_dir;
        kernel_stack = kernel_stack;
        user_stack = user_stack;
        priority = 10;
        time_slice = 10;
        rip = entry_point;
        rsp = stack;
        rbp = stack;
        rflags = 0x202;
        cr3 = page_dir;
      }

  abbrev pub use_pid : Processes → Processes
  use_pid s = record s { next_pid = u32 (s.next_pid + 1) }

  unfoldable pub link_process : Process → Processes → Processes
  link_process proc s = record s { process_list = proc ∷ s.process_list }

  -- From the kernel stack on, with the block and the page directory made. Each failure gives back
  -- what was taken, the last first.
  unfoldable pub create_stacks :
      ℕ → CString → ℕ → Bool → ℕ → Processes → memory.State → ℕ × Processes × memory.State
  unfolding new_process link_process
  create_stacks address name entry_point is_kernel dir s st =
      let (kernel_base, st1) = memory.kmalloc_virtual stack_size st in
      let (user_base, st2) = memory.kmalloc_virtual stack_size st1 in
      let kernel_stack = u64 (kernel_base + stack_size) in
      let no_dir = if is_kernel then st1 else memory.kfree_virtual dir page_dir_size st1 in
      let no_stacks =
        memory.kfree_virtual dir page_dir_size (memory.kfree_virtual kernel_base stack_size st2) in
      let kernel_proc = new_process address name entry_point true dir kernel_stack 0 s in
      let user_proc =
        new_process address name entry_point false dir kernel_stack (u64 (user_base + stack_size))
          s in
      if kernel_base == 0
      then (0, use_pid s, memory.kfree address no_dir)
      else if is_kernel
      then (address, link_process kernel_proc (use_pid s), st1)
      else if user_base == 0
      then (0, use_pid s, memory.kfree address no_stacks)
      else (address, link_process user_proc (use_pid s), st2)

  -- The address of the new block, 0 on failure.
  unfoldable pub process_create :
      CString → ℕ → Bool → Processes → memory.State → ℕ × Processes × memory.State
  unfolding new_page_dir create_stacks
  process_create name entry_point is_kernel s st =
      let (address, st1) = memory.kmalloc pcb_size st in
      let (dir, st2) = new_page_dir is_kernel st1 in
      if address == 0
      then (0, s, st1)
      else if not is_kernel && (dir == 0)
      then (0, use_pid s, memory.kfree address st2)
      else create_stacks address name entry_point is_kernel dir s st2
