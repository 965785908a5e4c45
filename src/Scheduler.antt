-- ===== src/Scheduler.antt =====
-- kernel/scheduler/scheduler.c, the round-robin scheduler. A `task_t *` is its address; NULL is 0.
-- `cell` gives the structure at an address: two tasks never share a field that the scheduler writes,
-- since `kmalloc` hands out multiples of 4096, the fields up to `regs` lie in the first 88 bytes of
-- a structure, and `next` lies at 4 * 4096 + 88. A structure that would lie on the words of the
-- allocator's bitmap is outside the model: `task_create` has no result there.
pub mod Chain
pub mod Ring
pub mod Round
pub mod Create
pub mod Steps
pub mod Reach
pub mod Turns
mod Tests
use homeserver_os.Base.{
  ℕ, zero, suc, ◌+◌, ◌*◌, ◌%◌, ◌^◌, Bool, true, false, not, List, Option, none, some, ◌==◌, ◌||◌,
  ◌&&◌, ltb, length, ◌>>=◌, if◌then◌else◌,
}
use homeserver_os.Base.Text.{copy_chars}
use homeserver_os.Memory.{Memory, kmalloc}

-- TASK_STACK_SIZE
abbrev pub task_stack_size : ℕ
task_stack_size = 4096

-- `task_state_t`
pub data TaskState : Type 0 where
  ready running blocked terminated : TaskState

-- The values that C gives the states, which it compares.
abbrev pub state_value : TaskState → ℕ
state_value ready = 0
state_value running = 1
state_value blocked = 2
state_value terminated = 3

infix 50 ◌is◌
abbrev pub ◌is◌ : TaskState → TaskState → Bool
a is b = state_value a == state_value b

-- `registers_t`
pub record Registers : Type 0 where
  pub eax : ℕ  -- uint32_t, as all of them
  pub ebx : ℕ
  pub ecx : ℕ
  pub edx : ℕ
  pub esi : ℕ
  pub edi : ℕ
  pub ebp : ℕ
  pub eip : ℕ
  pub esp : ℕ
  pub eflags : ℕ

-- `task_t`
pub record Task : Type 0 where
  pub id : ℕ  -- uint32_t
  pub name : List ℕ  -- char[32]
  pub state : TaskState
  pub priority : ℕ  -- uint32_t
  pub time_slice : ℕ  -- uint32_t
  pub regs : Registers
  pub stack : List ℕ  -- uint32_t[TASK_STACK_SIZE]
  pub next : ℕ  -- struct task *

-- The static variables of the file, and the memory that the pointers lead to.
pub record Scheduler : Type 0 where
  pub cell : ℕ → Task
  pub task_list : ℕ  -- task_t *
  pub current_task : ℕ  -- task_t *
  pub next_task_id : ℕ  -- uint32_t

-- A write through the pointer `a`.
abbrev pub write : ℕ → (Task → Task) → (ℕ → Task) → ℕ → Task
write a change cell p = if p == a then change (cell p) else cell p

-- `scheduler_init`
unfoldable pub init : Scheduler → Scheduler
init s = record s { task_list = 0; current_task = 0; next_task_id = 1 }

-- `&task->stack[TASK_STACK_SIZE - 1]`: the stack starts at byte 88 of the structure.
abbrev pub stack_top : ℕ → ℕ
stack_top task = (task + 88 + 4095 * 4) % 2 ^ 32

-- What `task_create` stores in the structure that it was given.
unfoldable pub fill_task : ℕ → ℕ → List ℕ → ℕ → ℕ → ℕ → Task → Task
fill_task task id name entry_point priority next t = record t {
  id = id;
  name = copy_chars 32 name t.name;
  state = ready;
  priority = priority;
  time_slice = 10;
  regs = record t.regs { eip = entry_point; esp = stack_top task; eflags = 0x202 };
  next = next;
}

-- `task_create` behind the `kmalloc`
unfoldable pub link_task : ℕ → List ℕ → ℕ → ℕ → Scheduler → Scheduler
link_task task name entry_point priority s = record s {
  cell = write task (fill_task task s.next_task_id name entry_point priority s.task_list) s.cell;
  task_list = task;
  next_task_id = (s.next_task_id + 1) % 2 ^ 32;
}

-- sizeof(task_t)
abbrev pub task_size : ℕ
task_size = 88 + 4096 * 4 + 4

-- Two ranges of bytes, each an address and a number of bytes, have a byte in common.
abbrev pub meet : (a n b k : ℕ) → Bool
meet a n b k = ltb a (b + k) && ltb b (a + n)

-- The bytes that the functions store in the structure at the address are the first 88 and those of
-- `next`: whether one of them is a byte of the bitmap.
abbrev pub hits_bitmap : ℕ → Memory → Bool
hits_bitmap task m =
    let size = length m.bitmap * 4 in
    meet task 88 m.memory_bitmap size || meet (task + 88 + 4096 * 4) 4 m.memory_bitmap size

-- `task_create`. `none` is a store into the bitmap of the allocator.
unfoldable pub task_create : List ℕ → ℕ → ℕ → Scheduler × Memory → Option (ℕ × Scheduler × Memory)
task_create name entry_point priority (s, m) =
    let (task, m') = kmalloc task_size m in
    if task == 0
    then some (0, s, m')
    else if hits_bitmap task m'
    then none
    else some (task, link_task task name entry_point priority s, m')

-- `task_terminate`
unfoldable pub task_terminate : ℕ → Scheduler → Scheduler
task_terminate task s =
    if task == 0
    then s
    else record s { cell = write task (λ t. record t { state = terminated }) s.cell }

abbrev pub is_ready : Task → Bool
is_ready t = t.state is ready

-- `while (next && next != stop) { if (next->state == TASK_READY) return next; next = next->next; }`
-- The result is 0 where the loop ends with no return; `none` means that the fuel ran out. The first
-- of the two loops has no `stop`, which is NULL then.
unfoldable pub first_ready : ℕ → (ℕ → Task) → ℕ → ℕ → Option ℕ
first_ready zero cell stop next = none
first_ready (suc fuel) cell stop next = elim (next == 0 || next == stop) [
  | true ↦ some 0
  | false ↦ elim (is_ready (cell next)) [
    | true ↦ some next
    | false ↦ first_ready fuel cell stop (cell next).next
  ]
]

-- The second loop of `scheduler_next`, and its last line.
abbrev pub from_start : ℕ → Scheduler → Option ℕ
from_start fuel s = do
  next ← first_ready fuel s.cell s.current_task s.task_list
  some (if next == 0 then s.current_task else next)

-- `scheduler_next` behind its test on `current_task`
unfoldable pub next_after : ℕ → Scheduler → Option ℕ
next_after fuel s = do
  next ← first_ready fuel s.cell 0 (s.cell s.current_task).next
  if next == 0 then from_start fuel s else some next

-- `scheduler_next`
unfoldable pub scheduler_next : ℕ → Scheduler → Option (ℕ × Scheduler)
scheduler_next fuel s =
    if s.current_task == 0
    then some (s.task_list, record s { current_task = s.task_list })
    else (do next ← next_after fuel s; some (next, s))

-- `if (current_task->state == TASK_RUNNING) current_task->state = TASK_READY;`
abbrev pub retire : Task → Task
retire t = if t.state is running then record t { state = ready } else t

-- `scheduler_switch` behind the call of `scheduler_next`
unfoldable pub switch_to : ℕ × Scheduler → Scheduler
switch_to (next_task, s) = if next_task == s.current_task then s else record s {
  cell = write next_task (λ t. record t { state = running }) (write s.current_task retire s.cell);
  current_task = next_task;
}

-- `scheduler_switch`
unfoldable pub scheduler_switch : ℕ → Scheduler → Option Scheduler
scheduler_switch fuel s =
    if s.current_task == 0 then some s else (do r ← scheduler_next fuel s; some (switch_to r))

-- `scheduler_yield`
unfoldable pub scheduler_yield : ℕ → Scheduler → Option Scheduler
scheduler_yield fuel s = scheduler_switch fuel s

-- `get_current_task`
unfoldable pub get_current_task : Scheduler → ℕ
get_current_task s = s.current_task

-- The loop of `get_task_count`; `none` means that the fuel ran out.
unfoldable pub count_tasks : ℕ → (ℕ → Task) → ℕ → ℕ → Option ℕ
count_tasks zero cell count task = none
count_tasks (suc fuel) cell count task = elim (task == 0) [
  | true ↦ some count
  | false ↦
      count_tasks fuel cell
        (if (cell task).state is terminated then count else (count + 1) % 2 ^ 32) (cell task).next
]

-- `get_task_count`
unfoldable pub get_task_count : ℕ → Scheduler → Option ℕ
get_task_count fuel s = count_tasks fuel s.cell 0 s.task_list
