-- ===== src/Process/Schedule.antt =====
-- The scheduler of kernel/core/process.c: which process runs.
use os_ax.Base.{
  ℕ, Bool, true, false, ◌++◌, ◌≡◌, ◌≢◌, refl, sym, ap, ◌∙◌, inl, inr, Option, none, some, List, [],
  ◌∷◌, ◌==◌, ==→eq, ==_refl, ==_false→ne, ne→==_false, if◌then◌else◌, Bool-cases, Option-cases,
}
use os_ax.Process.{
  ProcessState, ready, running, blocked, terminated, is_ready, Process, Processes, set_state,
  find_ready, process_switch, schedule, yield, Memory, unlink, process_destroy,
}

-- The processes that are running are all at one address.
unfoldable pub RunningAt : ℕ → List Process → Type 0
RunningAt a [] = Unit
RunningAt a (p ∷ ps) = (p.state ≡ running → p.address ≡ a) × RunningAt a ps

pub NoneRunning : List Process → Type 0
NoneRunning [] = Unit
NoneRunning (p ∷ ps) = (p.state ≢ running) × NoneRunning ps

-- No block is at NULL.
unfoldable pub ArePlaced : List Process → Type 0
ArePlaced [] = Unit
ArePlaced (p ∷ ps) = (p.address ≢ 0) × ArePlaced ps

-- No process runs but the current one.
pub record IsValid (s : Processes) : Type 0 where
  pub placed : ArePlaced s.process_list
  pub one_runs : RunningAt s.current_process s.process_list

-- The state of the process at an address.
pub state_at : ℕ → List Process → Option ProcessState
state_at a [] = none
state_at a (p ∷ ps) = let rest = state_at a ps in if p.address == a then some p.state else rest

set_state-ArePlaced :
    (a : ℕ) (state : ProcessState) (ps : List Process)
    → ArePlaced ps
    → ArePlaced (set_state a state ps)
unfolding set_state ArePlaced
set_state-ArePlaced a state [] h = tt
set_state-ArePlaced a state (p ∷ ps) (here, rest) = elim (Bool-cases (p.address == a)) [
  | inl e ↦ simp e (here, set_state-ArePlaced a state ps rest)
  | inr e ↦ simp e (here, set_state-ArePlaced a state ps rest)
]

-- What is running at the address is made ready, so nothing runs.
set_state-NoneRunning :
    (a : ℕ) (ps : List Process) → RunningAt a ps → NoneRunning (set_state a ready ps)
unfolding set_state RunningAt NoneRunning
set_state-NoneRunning a [] h = tt
set_state-NoneRunning a (p ∷ ps) (here, rest) = elim (Bool-cases (p.address == a)) [
  | inl e ↦ simp e ((λ x. cc), set_state-NoneRunning a ps rest)
  | inr e ↦ simp e ((λ x. ==_false→ne p.address a e (here x)), set_state-NoneRunning a ps rest)
]

set_state-RunningAt :
    (a : ℕ) (ps : List Process) → NoneRunning ps → RunningAt a (set_state a running ps)
unfolding set_state RunningAt NoneRunning
set_state-RunningAt a [] h = tt
set_state-RunningAt a (p ∷ ps) (here, rest) = elim (Bool-cases (p.address == a)) [
  | inl e ↦ simp e ((λ x. ==→eq p.address a e), set_state-RunningAt a ps rest)
  | inr e ↦ simp e ((λ x. absurd (here x)), set_state-RunningAt a ps rest)
]

RunningAt-NoneRunning : (ps : List Process) → ArePlaced ps → RunningAt 0 ps → NoneRunning ps
unfolding ArePlaced RunningAt NoneRunning
RunningAt-NoneRunning [] placed h = tt
RunningAt-NoneRunning (p ∷ ps) (at, placed) (here, rest) =
    ((λ x. at (here x)), RunningAt-NoneRunning ps placed rest)

NoneRunning-RunningAt : (a : ℕ) (ps : List Process) → NoneRunning ps → RunningAt a ps
unfolding RunningAt NoneRunning
NoneRunning-RunningAt a [] h = tt
NoneRunning-RunningAt a (p ∷ ps) (here, rest) =
    ((λ x. absurd (here x)), NoneRunning-RunningAt a ps rest)

process_switch-IsValid :
    (next : Process) (s : Processes) → IsValid s → IsValid (process_switch next s)
unfolding process_switch
process_switch-IsValid next s v = elim (Bool-cases (next.address == s.current_process)) [
  | inl same ↦ rw same v
  | inr other ↦ elim (Bool-cases (s.current_process == 0)) [
    | inl idle ↦
        let none_runs =
          RunningAt-NoneRunning s.process_list v.placed
            (rw (sym (==→eq s.current_process 0 idle)) v.one_runs) in
        rw (other, idle)
          (record {
            placed = set_state-ArePlaced next.address running s.process_list v.placed;
            one_runs = set_state-RunningAt next.address s.process_list none_runs;
          })
    | inr busy ↦
        let old = s.current_process in
        let stopped = set_state old ready s.process_list in
        rw (other, busy)
          (record {
            placed =
                set_state-ArePlaced next.address running stopped
                  (set_state-ArePlaced old ready s.process_list v.placed);
            one_runs =
                set_state-RunningAt next.address stopped
                  (set_state-NoneRunning old s.process_list v.one_runs);
          })
  ]
]

process_switch-current :
    (next : Process) (s : Processes) → (process_switch next s).current_process ≡ next.address
unfolding process_switch
process_switch-current next s = elim (Bool-cases (next.address == s.current_process)) [
  | inl same ↦ rw same (sym (==→eq next.address s.current_process same))
  | inr other ↦ rw other refl
]

pub NoneReady : List Process → Type 0
NoneReady [] = Unit
NoneReady (p ∷ ps) = (p.state ≢ ready) × NoneReady ps

-- The test for a ready process, on its state.
abbrev ready_state : ProcessState → Bool
ready_state state = elim state [
  | ready ↦ true
  | running ↦ false
  | blocked ↦ false
  | terminated ↦ false
]

is_ready-ready : (p : Process) → p.state ≡ ready → is_ready p ≡ true
is_ready-ready p e = ap ready_state e

ready_state-ready : (state : ProcessState) → ready_state state ≡ true → state ≡ ready
ready_state-ready ready h = refl
ready_state-ready running h = cc
ready_state-ready blocked h = cc
ready_state-ready terminated h = cc

find_ready-first :
    (before : List Process) (p : Process) (after : List Process)
    → NoneReady before
    → p.state ≡ ready
    → find_ready (before ++ p ∷ after) ≡ some p
unfolding find_ready NoneReady
find_ready-first [] p after none_before e = let here = is_ready-ready p e in rw here refl
find_ready-first (q ∷ before) p after (not_here, none_before) e = elim (Bool-cases (is_ready q)) [
  | inl here ↦ absurd (not_here (ready_state-ready q.state here))
  | inr other ↦ rw other (find_ready-first before p after none_before e)
]

find_ready-none : (ps : List Process) → NoneReady ps → find_ready ps ≡ none
unfolding find_ready NoneReady
find_ready-none [] none_ready = refl
find_ready-none (q ∷ ps) (not_here, none_ready) = elim (Bool-cases (is_ready q)) [
  | inl here ↦ absurd (not_here (ready_state-ready q.state here))
  | inr other ↦ rw other (find_ready-none ps none_ready)
]

-- What `schedule` does with the process that it finds.
abbrev switch_to : Processes → Option Process → Processes
switch_to s x = elim x [ none ↦ s | some next ↦ process_switch next s ]

schedule-IsValid : (s : Processes) → IsValid s → IsValid (schedule s)
unfolding schedule
schedule-IsValid s v = elim (Option-cases (find_ready s.process_list)) [
  | inl nothing ↦ rw (schedule, nothing) v
  | inr (next, found) ↦ rw (schedule, found) (process_switch-IsValid next s v)
]

-- `schedule` keeps it that no process runs but the current one. A ready process that no ready one
-- stands in front of in the list becomes the current one, and nothing changes when none is ready.
pub schedule_lem :
    (s : Processes)
    → IsValid s
    → IsValid (schedule s)
      × ((before : List Process) (p : Process) (after : List Process)
          → s.process_list ≡ before ++ p ∷ after
          → NoneReady before
          → p.state ≡ ready
          → (schedule s).current_process ≡ p.address)
      × (NoneReady s.process_list → schedule s ≡ s)
unfolding schedule
schedule_lem s v = (
  schedule-IsValid s v,
  (λ before p after e none_before is.
      let found : find_ready s.process_list ≡ some p =
        ap find_ready e ∙ find_ready-first before p after none_before is in
      ap (λ (x : Option Process). (switch_to s x).current_process) found
      ∙ process_switch-current p s),
  (λ none_ready. ap (switch_to s) (find_ready-none s.process_list none_ready)),
)

-- `yield` keeps it that no process runs but the current one.
pub yield-IsValid : (s : Processes) → IsValid s → IsValid (yield s)
unfolding yield
yield-IsValid s v = elim (Bool-cases (s.current_process == 0)) [
  | inl idle ↦ rw idle v
  | inr busy ↦
      let old = s.current_process in
      let stopped = set_state old ready s.process_list in
      rw busy (
        schedule-IsValid (record s { process_list = stopped })
          (record {
            placed = set_state-ArePlaced old ready s.process_list v.placed;
            one_runs =
                NoneRunning-RunningAt old stopped
                  (set_state-NoneRunning old s.process_list v.one_runs);
          }))
]

-- When the process that yields is the first of the list, no other gets the processor: the process
-- stays the current one, and is left marked as ready though it goes on to run.
pub yield-first :
    (before : Processes) (p : Process) (ps : List Process)
    → p.address ≢ 0
    → let s = record before { process_list = p ∷ ps; current_process = p.address } in
      ((yield s).current_process ≡ p.address)
      × (state_at p.address (yield s).process_list ≡ some ready)
unfolding yield schedule process_switch set_state find_ready state_at
yield-first before p ps placed =
    simp (ne→==_false p.address 0 placed, ==_refl p.address) (refl, refl)

unlink-ArePlaced : (a : ℕ) (ps : List Process) → ArePlaced ps → ArePlaced (unlink a ps)
unfolding unlink ArePlaced
unlink-ArePlaced a [] h = tt
unlink-ArePlaced a (p ∷ ps) (here, rest) = elim (Bool-cases (p.address == a)) [
  | inl e ↦ simp e rest
  | inr e ↦ simp e (here, unlink-ArePlaced a ps rest)
]

unlink-RunningAt : (a b : ℕ) (ps : List Process) → RunningAt b ps → RunningAt b (unlink a ps)
unfolding unlink RunningAt
unlink-RunningAt a b [] h = tt
unlink-RunningAt a b (p ∷ ps) (here, rest) = elim (Bool-cases (p.address == a)) [
  | inl e ↦ simp e rest
  | inr e ↦ simp e (here, unlink-RunningAt a b ps rest)
]

-- `process_destroy` takes a process out of the list and keeps it that no process runs but the
-- current one.
pub process_destroy-IsValid :
    (memory : Memory) (kernel_page_dir : ℕ) (proc : Process) (s : Processes) (st : memory.State)
    → IsValid s
    → IsValid (process_destroy memory kernel_page_dir proc s st).0
unfolding process_destroy
process_destroy-IsValid memory kernel_page_dir proc s st v = record {
  placed = unlink-ArePlaced proc.address s.process_list v.placed;
  one_runs = unlink-RunningAt proc.address s.current_process s.process_list v.one_runs;
}
