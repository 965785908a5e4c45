-- ===== src/Scheduler/Tests.antt =====
-- Runs of kernel/scheduler/scheduler.c on small inputs.
use homeserver_os.Base.{[], ◌∷◌, ◌≡◌, inr, refl, arith, replicate, some, ◌==◌, if◌then◌else◌}
use homeserver_os.Base.Bits.{bit}
use homeserver_os.Base.Table.{update_at}
use homeserver_os.Base.Bitmap.{first_free, free_bit, set_bit}
use homeserver_os.Scheduler.Chain.{Chain}
use homeserver_os.Memory as Allocator
use homeserver_os.Memory.{Memory}
use homeserver_os.Memory.Frames as Frames
use homeserver_os.Scheduler.{
  Scheduler, Task, ready, running, init, link_task, fill_task, task_create, task_terminate,
  scheduler_switch,
}
use homeserver_os.Scheduler.Ring.{IsRing}
use homeserver_os.Scheduler.Round.{IsValid, Switched, scheduler_switch-Switched}
use homeserver_os.Scheduler.Turns.{Served, ready-Served}
use homeserver_os.Scheduler.Create.{IsPlaced}
use homeserver_os.Scheduler.Steps.{Followed, created, ended}
use homeserver_os.Scheduler.Reach.{here, next, Reach-Followed, init-IsPlaced}

abbrev blank : Task
blank = record {
  id = 0;
  name = replicate 32 0;
  state = ready;
  priority = 0;
  time_slice = 0;
  regs = record {
    eax = 0;
    ebx = 0;
    ecx = 0;
    edx = 0;
    esi = 0;
    edi = 0;
    ebp = 0;
    eip = 0;
    esp = 0;
    eflags = 0;
  };
  stack = replicate 4096 0;
  next = 0;
}

abbrev loaded : Scheduler
loaded = record { cell = λ p. blank; task_list = 0; current_task = 0; next_task_id = 1 }

-- 64 frames, of which frame 0 is taken, so that no page at NULL is handed out
abbrev memory : Memory
memory = record {
  memory_bitmap = 0x100000;
  bitmap = 1 ∷ 0 ∷ [];
  total_frames = 64;
  used_frames = 1;
}

memory-IsValid : Frames.IsValid memory
unfolding bit
memory-IsValid = record {
  addressable = omega arith;
  covers = refl;
  words = (omega arith, (omega arith, tt));
  counted = refl;
}

placed : IsPlaced [] (init loaded) memory
placed = init-IsPlaced loaded memory memory-IsValid

-- The task that is created first, on frame 1.
abbrev one : Scheduler
one = link_task 4096 (b'a' ∷ []) 5 1 (init loaded)

abbrev less_memory : Memory
less_memory = record {
  memory_bitmap = 0x100000;
  bitmap = 3 ∷ 0 ∷ [];
  total_frames = 64;
  used_frames = 2;
}

created_one : task_create (b'a' ∷ []) 5 1 (init loaded, memory) ≡ some (4096, one, less_memory)
unfolding task_create Allocator.kmalloc Allocator.first_free_frame first_free free_bit
    Allocator.set_frame set_bit update_at
created_one = refl

one-Chain : Chain one.cell one.task_list (4096 ∷ [])
unfolding link_task fill_task init
one-Chain = (refl, (λ e. omega arith), refl)

-- Two tasks, of which the one that was created last runs.
abbrev two : Scheduler
two = record {
  cell = λ p. if p == 8192 then record blank { state = running; next = 4096 } else blank;
  task_list = 8192;
  current_task = 8192;
  next_task_id = 3;
}

two-IsRing : IsRing (8192 ∷ 4096 ∷ []) 8192 (4096 ∷ [])
two-IsRing = record { before = []; after = 4096 ∷ []; here = refl; around = refl }

two-IsValid : IsValid (8192 ∷ 4096 ∷ []) two
two-IsValid = record {
  chain = (refl, (λ e. omega arith), (refl, (λ e. omega arith), refl));
  distinct = (((λ e. omega arith), tt), (tt, tt));
  current = inr (4096 ∷ [], two-IsRing);
  one_running = ((λ e. refl), ((λ e. absurd (cc)), tt));
}

scheduler_switch-Switched_example :
    (t : Scheduler) × (scheduler_switch 3 two ≡ some t) × Switched (8192 ∷ 4096 ∷ []) 4096 two t
scheduler_switch-Switched_example =
    scheduler_switch-Switched 3 (8192 ∷ 4096 ∷ []) (4096 ∷ []) two two-IsValid two-IsRing
      (omega arith)

ready-Served_example : Served 3 (8192 ∷ 4096 ∷ []) 4096 1 two
ready-Served_example =
    ready-Served 3 (8192 ∷ 4096 ∷ []) 4096 [] [] two two-IsValid two-IsRing (λ e. omega arith) refl
      (omega arith)

-- A task is created, and terminated.
Reach-Followed_example : Followed [] (init loaded) (task_terminate 4096 one) less_memory
Reach-Followed_example =
    Reach-Followed []
      (next (next here (created (b'a' ∷ []) 5 1 4096 created_one))
        (ended 4096 (4096 ∷ []) one-Chain (inr (0, refl))))
      placed
