-- ===== src/Scheduler/Create.antt =====
-- `task_create` of kernel/scheduler/scheduler.c, on the allocator of kernel/memory/memory.c.
use homeserver_os.Base.{
  ℕ, ◌<◌, ◌^◌, ◌/◌, ◌%◌, none, some, length, Bool-cases, ◌+◌, ◌*◌, ◌≡◌, ◌≢◌, ◌⊎◌, inl, inr, refl,
  ◌∙◌, ap, true, false, List, [], ◌∷◌, ◌++◌, arith, ◌==◌,
}
use homeserver_os.Base.Table.Slots.{All}
use native.Mathlib.Decide.{ℕ_discrete}
use mathlib.Core.Path.{subst}
use homeserver_os.Base.Bitmap.Marks.{length-set_bit}
use homeserver_os.Memory.{Memory, kmalloc}
use homeserver_os.Memory.Frames as Frames
use homeserver_os.Scheduler.{
  Scheduler, Task, ready, running, write, fill_task, link_task, task_create, task_size, hits_bitmap,
}
use homeserver_os.Scheduler.Chain.{Chain, alive}
use homeserver_os.Scheduler.Ring.{IsRing}
use homeserver_os.Scheduler.Round.{IsValid}

-- The structure at the address is in a frame that the allocator has given out.
abbrev pub IsHeld : Memory → ℕ → Type 0
IsHeld m a = (frame : ℕ) × (a ≡ frame * 4096) × (Frames.in_use m frame ≡ 1)

-- The scheduler and the memory, between two calls.
pub record IsPlaced (tasks : List ℕ) (s : Scheduler) (m : Memory) : Type 0 where
  pub scheduler : IsValid tasks s
  pub memory : Frames.IsValid m
  pub held : All (IsHeld m) tasks
  pub clear : All (λ a. hits_bitmap a m ≡ false) tasks

-- What a `task_create` that returns the address `a` leaves.
pub record Created (tasks : List ℕ) (a entry urgency : ℕ) (s t : Scheduler) (m : Memory)
    : Type 0 where
  pub task : a ≢ 0
  pub fresh : All (λ b. b ≢ a) tasks
  pub state : (t.cell a).state ≡ ready
  pub id : (t.cell a).id ≡ s.next_task_id
  pub counter : t.next_task_id ≡ (s.next_task_id + 1) % 2 ^ 32
  pub new_id :
      All (λ b. (s.cell b).id < s.next_task_id) tasks
      → s.next_task_id + 1 < 2 ^ 32
      → All (λ b. (t.cell b).id ≢ (t.cell a).id) tasks
        × All (λ b. (t.cell b).id < t.next_task_id) (a ∷ tasks)
  pub starts_at : (t.cell a).regs.eip ≡ entry
  pub priority : (t.cell a).priority ≡ urgency
  pub slice : (t.cell a).time_slice ≡ 10
  pub same_current : t.current_task ≡ s.current_task
  pub others : (b : ℕ) → b ≢ a → t.cell b ≡ s.cell b
  pub counted : alive t.cell (a ∷ tasks) ≡ alive s.cell tasks + 1
  pub placed : IsPlaced (a ∷ tasks) t m

module _ (a : ℕ) (f : Task → Task) (cell : ℕ → Task) where
  write_self : write a f cell a ≡ f (cell a)
  write_self = let e : (a == a) ≡ true = ground arith in rw e refl

  write_ne : (b : ℕ) → b ≢ a → write a f cell b ≡ cell b
  write_ne b ne = let e : (b == a) ≡ false = ground arith in rw e refl

  Chain-write :
      (p : ℕ) (tasks : List ℕ)
      → All (λ b. b ≢ a) tasks
      → Chain cell p tasks
      → Chain (write a f cell) p tasks
  Chain-write p [] ne h = h
  Chain-write p (b ∷ tasks) ne h =
      (h.0, h.1, rw (write_ne b ne.0) (Chain-write (cell b).next tasks ne.1 h.2))

  All-write :
      (P : ℕ → Task → Type 0) (tasks : List ℕ)
      → All (λ b. b ≢ a) tasks
      → All (λ b. P b (cell b)) tasks
      → All (λ b. P b (write a f cell b)) tasks
  All-write P [] ne h = tt
  All-write P (b ∷ tasks) ne h = (rw (write_ne b ne.0) (h.0), All-write P tasks ne.1 h.1)

  alive-write :
      (tasks : List ℕ) → All (λ b. b ≢ a) tasks → alive (write a f cell) tasks ≡ alive cell tasks
  alive-write [] ne = refl
  alive-write (b ∷ tasks) ne = rw (write_ne b ne.0, alive-write tasks ne.1) refl

-- A frame that was free holds no task.
fresh_frame :
    (frame : ℕ) (m : Memory) (tasks : List ℕ)
    → Frames.in_use m frame ≡ 0
    → All (IsHeld m) tasks
    → All (λ b. b ≢ frame * 4096) tasks
fresh_frame frame m [] free h = tt
fresh_frame frame m (b ∷ tasks) free ((g, e, taken), rest) = (
  (λ q.
      let same : g ≡ frame = omega arith in
      let taken' = subst (λ k. Frames.in_use m k ≡ 1) same taken in omega arith),
  fresh_frame frame m tasks free rest,
)

IsHeld-still :
    (frame : ℕ) (m t : Memory) (tasks : List ℕ)
    → Frames.Allocated frame m t
    → All (IsHeld m) tasks
    → All (IsHeld t) tasks
IsHeld-still frame m t [] w h = tt
IsHeld-still frame m t (b ∷ tasks) w ((g, e, taken), rest) =
    ((g, e, still (ℕ_discrete g frame)), IsHeld-still frame m t tasks w rest)
  where
    still : Dec (g ≡ frame) → Frames.in_use t g ≡ 1
    still (yes same) = rw same (w.now_used)
    still (no other) = w.others g other ∙ taken

clear-still :
    (frame : ℕ) (m t : Memory) (tasks : List ℕ)
    → Frames.Allocated frame m t
    → All (λ a. hits_bitmap a m ≡ false) tasks
    → All (λ a. hits_bitmap a t ≡ false) tasks
clear-still frame m t [] w h = tt
clear-still frame m t (a ∷ tasks) w h =
    let size : length t.bitmap ≡ length m.bitmap =
      ap length w.bits ∙ length-set_bit m.bitmap (frame / 32) (frame % 32) in
    (rw (w.same_map, size) (h.0), clear-still frame m t tasks w h.1)

-- Where the stores into a structure meet the bitmap, the structure lies across it.
across :
    (a : ℕ) (m : Memory)
    → hits_bitmap a m ≡ true
    → (m.memory_bitmap < a + task_size) × (a < m.memory_bitmap + length m.bitmap * 4)
across a m h = (ground arith, ground arith)

-- The ids of the tasks and a new one, the next of the counter
new_ids :
    (a : ℕ) (tasks : List ℕ) (s t : Scheduler)
    → ((b : ℕ) → b ≢ a → t.cell b ≡ s.cell b)
    → All (λ b. b ≢ a) tasks
    → (t.cell a).id ≡ s.next_task_id
    → t.next_task_id ≡ s.next_task_id + 1
    → All (λ b. (s.cell b).id < s.next_task_id) tasks
    → All (λ b. (t.cell b).id ≢ (t.cell a).id) tasks
      × All (λ b. (t.cell b).id < t.next_task_id) tasks
new_ids a [] s t same fresh id next h = (tt, tt)
new_ids a (b ∷ tasks) s t same fresh id next h =
    let (other, below) = new_ids a tasks s t same fresh.1 id next h.1 in
    let old : (t.cell b).id ≡ (s.cell b).id = ap (λ (k : Task). k.id) (same b fresh.0) in
    (((λ e. omega (arith, old, id, h.0)), other), (omega (arith, old, next, h.0), below))

linked-current :
    (a : ℕ) (tasks : List ℕ) (c : ℕ)
    → (c ≡ 0) ⊎ ((ring : List ℕ) × IsRing tasks c ring)
    → (c ≡ 0) ⊎ ((ring : List ℕ) × IsRing (a ∷ tasks) c ring)
linked-current a tasks c (inl e) = inl e
linked-current a tasks c (inr (ring, r)) = inr (
  r.after ++ a ∷ r.before,
  record { before = a ∷ r.before; after = r.after; here = ap (λ l. a ∷ l) r.here; around = refl },
)

link_task-IsValid :
    (a : ℕ) (tasks name : List ℕ) (entry urgency : ℕ) (s : Scheduler)
    → a ≢ 0
    → All (λ b. b ≢ a) tasks
    → IsValid tasks s
    → IsValid (a ∷ tasks) (link_task a name entry urgency s)
unfolding link_task fill_task
link_task-IsValid a tasks name entry urgency s ne fresh v =
    let change = fill_task a s.next_task_id name entry urgency s.task_list in
    let here = write_self a change s.cell in
    record {
      chain = (refl, ne, rw here (Chain-write a change s.cell s.task_list tasks fresh v.chain));
      distinct = (fresh, v.distinct);
      current = linked-current a tasks s.current_task v.current;
      one_running = (
        (λ q. let p : ready ≡ running = rw here at q in absurd (cc)),
        All-write a change s.cell (λ b t. t.state ≡ running → b ≡ s.current_task) tasks fresh
            v.one_running,
      );
    }

link_task-Created :
    (frame : ℕ) (tasks name : List ℕ) (entry urgency : ℕ) (s : Scheduler) (m m' : Memory)
    → frame * 4096 ≢ 0
    → hits_bitmap (frame * 4096) m' ≡ false
    → IsPlaced tasks s m
    → Frames.Allocated frame m m'
    → Created tasks
        (frame * 4096)
        entry
        urgency
        s
        (link_task (frame * 4096) name entry urgency s)
        m'
unfolding link_task fill_task
link_task-Created frame tasks name entry urgency s m m' ne free v w =
    let a : ℕ = frame * 4096 in
    let change = fill_task a s.next_task_id name entry urgency s.task_list in
    let here = write_self a change s.cell in
    let fresh = fresh_frame frame m tasks w.was_free v.held in
    record {
      task = ne;
      fresh = fresh;
      state = ap (λ t. t.state) here;
      id = ap (λ t. t.id) here;
      counter = refl;
      new_id = λ ids room.
          let t = link_task a name entry urgency s in
          let next : t.next_task_id ≡ s.next_task_id + 1 = omega arith in
          let id : (t.cell a).id ≡ s.next_task_id = ap (λ (k : Task). k.id) here in
          let (other, below) = new_ids a tasks s t (write_ne a change s.cell) fresh id next ids in
          (other, (omega (arith, id, next), below));
      starts_at = ap (λ t. t.regs.eip) here;
      priority = ap (λ t. t.priority) here;
      slice = ap (λ t. t.time_slice) here;
      same_current = refl;
      others = write_ne a change s.cell;
      counted = rw (here, alive-write a change s.cell tasks fresh) (omega arith);
      placed = record {
        scheduler = link_task-IsValid a tasks name entry urgency s ne fresh v.scheduler;
        memory = w.valid;
        held = ((frame, refl, w.now_used), IsHeld-still frame m m' tasks w v.held);
        clear = (free, clear-still frame m m' tasks w v.clear);
      };
    }

pub task_create-Created :
    (tasks name : List ℕ) (entry urgency : ℕ) (s : Scheduler) (m : Memory)
    → IsPlaced tasks s m
    → ((a : ℕ) × (t : Scheduler) × (m' : Memory) × (task_create name entry urgency (s, m)
          ≡ some (a, t, m'))
        × Created tasks a entry urgency s t m')
      ⊎ ((m' : Memory) × (task_create name entry urgency (s, m) ≡ some (0, s, m'))
          × IsPlaced tasks s m')
      ⊎ ((a : ℕ) × (task_create name entry urgency (s, m) ≡ none)
          × (m.memory_bitmap < a + task_size)
          × (a < m.memory_bitmap + length m.bitmap * 4)
          × ((kmalloc task_size m).0 ≡ a))
unfolding task_create
task_create-Created tasks name entry urgency s m v =
    elim (Frames.kmalloc-Allocated task_size m v.memory) [
      | inr (full, e) ↦ inr (inl (m, rw e refl, v))
      | inl (frame, m', e, w) ↦ elim (ℕ_discrete (frame * 4096) 0) [
        | yes null ↦
            let q : (frame * 4096 == 0) ≡ true = ground arith in
            inr (
              inl (
                m',
                rw (e, q) refl,
                record {
                  scheduler = v.scheduler;
                  memory = w.valid;
                  held = IsHeld-still frame m m' tasks w v.held;
                  clear = clear-still frame m m' tasks w v.clear;
                },
              ))
        | no ne ↦
            let q : (frame * 4096 == 0) ≡ false = ground arith in
            elim (Bool-cases (hits_bitmap (frame * 4096) m')) [
              | inl hit ↦
                  let size : length m'.bitmap ≡ length m.bitmap =
                    ap length w.bits ∙ length-set_bit m.bitmap (frame / 32) (frame % 32) in
                  let (low, high) = across (frame * 4096) m' hit in
                  inr (
                    inr (
                      frame * 4096,
                      rw (e, q) (rw hit refl),
                      rw (← w.same_map) low,
                      rw (← w.same_map, ← size) high,
                      ap (λ r. r.0) e,
                    ))
              | inr free ↦ inl (
                frame * 4096,
                link_task (frame * 4096) name entry urgency s,
                m',
                rw (e, q) (rw free refl),
                link_task-Created frame tasks name entry urgency s m m' ne free v w,
              )
            ]
      ]
    ]
