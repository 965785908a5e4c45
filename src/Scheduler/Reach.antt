-- ===== src/Scheduler/Reach.antt =====
-- The histories of kernel/scheduler/scheduler.c: what any sequence of its calls leaves.
use homeserver_os.Base.{
  ℕ, ◌^◌, ◌<◌, ◌≡◌, ◌≢◌, ◌⊎◌, inl, inr, refl, ◌∙◌, sym, ap, true, false, List, [], ◌∷◌, ◌++◌, some,
  arith, ◌==◌, length, some_inj,
}
use homeserver_os.Base.Table.Slots.{All}
use native.Mathlib.Decide.{ℕ_discrete}
use mathlib.Core.Path.{subst}
use mathlib.Core.List.{append_assoc}
use homeserver_os.Memory.{Memory}
use homeserver_os.Memory.Frames as Frames
use homeserver_os.Scheduler.{
  Scheduler, Task, running, terminated, is_ready, init, scheduler_next, scheduler_switch,
  get_task_count,
}
use homeserver_os.Scheduler.Chain.{
  Chain, Chain-nonzero, All-append, next_in_turn, alive, count_tasks-alive,
}
use homeserver_os.Scheduler.Ring.{IsRing, Chosen, nobody, someone, next_in_turn-Chosen}
use homeserver_os.Scheduler.Round.{
  IsValid, Switched, scheduler_switch-Switched, scheduler_next-next_in_turn,
}
use homeserver_os.Scheduler.Create.{IsPlaced}
use homeserver_os.Scheduler.Steps.{
  Step, created, ended, advanced, switched, Followed, Chain-unique, followed, create-Followed,
  terminate-Followed,
}

pub data Reach (s : Scheduler) (m : Memory) : Scheduler → Memory → Type 0 where
  here : Reach s m s m
  next : {t u : Scheduler} {m' m'' : Memory} → Reach s m t m' → Step t m' u m'' → Reach s m u m''

-- The task that was chosen was ready.
Chosen-ready :
    (cell : ℕ → Task) (other n : ℕ) (ring : List ℕ)
    → Chosen cell other ring n
    → n ≢ other
    → is_ready (cell n) ≡ true
Chosen-ready cell other n ring (nobody h) ne = absurd (ne refl)
Chosen-ready cell other n ring (someone xs ys r h q) ne = r

Switched-final :
    (tasks ring : List ℕ) (n : ℕ) (s t : Scheduler)
    → Chosen s.cell s.current_task ring n
    → Switched tasks n s t
    → (b : ℕ) → (s.cell b).state ≡ terminated
    → (t.cell b).state ≡ terminated
Switched-final tasks ring n s t c w b e = elim (ℕ_discrete n s.current_task) [
  | yes same ↦ rw (w.same same) e
  | no other ↦ elim (ℕ_discrete b n) [
    | yes q ↦
        let r =
          subst (λ k. is_ready (s.cell k) ≡ true) (sym q)
            (Chosen-ready s.cell s.current_task n ring c other) in
        let p : is_ready (s.cell b) ≡ false = rw e refl in absurd (cc)
    | no far ↦ elim (ℕ_discrete b s.current_task) [
      | yes q ↦
          let p : (s.cell s.current_task).state ≡ terminated =
            subst (λ k. (s.cell k).state ≡ terminated) q e in
          subst (λ k. (t.cell k).state ≡ terminated) (sym q) (w.stepped_down other ∙ rw p refl)
      | no third ↦ rw (w.others b far third) e
    ]
  ]
]

switch-Followed :
    (fuel : ℕ) (tasks : List ℕ) (s t : Scheduler) (m : Memory)
    → IsPlaced tasks s m
    → length tasks < fuel
    → scheduler_switch fuel s ≡ some t
    → Followed tasks s t m
unfolding scheduler_switch
switch-Followed fuel tasks s t m v lt e = elim v.scheduler.current [
  | inl null ↦
      let q : (s.current_task == 0) ≡ true = rw null refl in
      let p : some s ≡ some t = rw q at e in
      rw (← some_inj p) (followed tasks s s m v v.scheduler (λ b h. h))
  | inr (ring, r) ↦
      let (u, q, w) = scheduler_switch-Switched fuel tasks ring s v.scheduler r lt in
      let n = next_in_turn s.cell s.current_task ring in
      let same : u ≡ t = some_inj (sym q ∙ unfold scheduler_switch in e) in
      rw (← same) (
        followed tasks s u m v w.valid
          (Switched-final tasks ring n s u (next_in_turn-Chosen s.cell s.current_task ring) w))
]

-- The first `scheduler_next` makes the head of the list the current task, and marks it by nothing.
start_running :
    (cell : ℕ → Task) (c : ℕ) (tasks : List ℕ)
    → All (λ a. a ≢ 0) tasks
    → All (λ a. (cell a).state ≡ running → a ≡ 0) tasks
    → All (λ a. (cell a).state ≡ running → a ≡ c) tasks
start_running cell c [] ne h = tt
start_running cell c (a ∷ tasks) ne h =
    ((λ e. absurd (ne.0 (h.0 e))), start_running cell c tasks ne.1 h.1)

start_current :
    (cell : ℕ → Task) (p : ℕ) (tasks : List ℕ)
    → Chain cell p tasks
    → (p ≡ 0) ⊎ ((ring : List ℕ) × IsRing tasks p ring)
start_current cell p [] h = inl h
start_current cell p (a ∷ tasks) h = inr (
  tasks ++ [],
  record { before = []; after = tasks; here = ap (λ k. k ∷ tasks) (sym (h.0)); around = refl },
)

first_next :
    (fuel : ℕ) (s : Scheduler)
    → s.current_task ≡ 0
    → scheduler_next fuel s ≡ some (s.task_list, record s { current_task = s.task_list })
unfolding scheduler_next
first_next fuel s null = let q : (s.current_task == 0) ≡ true = rw null refl in rw q refl

next-Followed :
    (fuel : ℕ) (tasks : List ℕ) (n : ℕ) (s t : Scheduler) (m : Memory)
    → IsPlaced tasks s m
    → length tasks < fuel
    → scheduler_next fuel s ≡ some (n, t)
    → Followed tasks s t m
next-Followed fuel tasks n s t m v lt e = elim v.scheduler.current [
  | inl null ↦
      let w = v.scheduler in
      let u : Scheduler = record s { current_task = s.task_list } in
      let same : u ≡ t = ap (λ r. r.1) (some_inj (sym (first_next fuel s null) ∙ e)) in
      rw (← same) (
        followed tasks s u m v
          (record {
            chain = w.chain;
            distinct = w.distinct;
            current = start_current s.cell s.task_list tasks w.chain;
            one_running =
                start_running s.cell s.task_list tasks
                  (Chain-nonzero s.cell s.task_list tasks w.chain)
                  (subst (λ c. All (λ a. (s.cell a).state ≡ running → a ≡ c) tasks) null
                    w.one_running);
          })
          (λ b h. h))
  | inr (ring, r) ↦
      let q = scheduler_next-next_in_turn fuel tasks ring s v.scheduler r lt in
      let same : s ≡ t = ap (λ r. r.1) (some_inj (sym q ∙ e)) in
      rw (← same) (followed tasks s s m v v.scheduler (λ b h. h))
]

pub Step-Followed :
    (tasks : List ℕ) {s t : Scheduler} {m m' : Memory}
    → Step s m t m'
    → IsPlaced tasks s m
    → Followed tasks s t m'
Step-Followed tasks {s} {t} {m} {m'} (created name entry urgency a e) v =
    create-Followed name entry urgency a tasks s t m m' v e
Step-Followed tasks {s} {m} (ended a others c known) v = terminate-Followed a tasks s m v
Step-Followed tasks {s} {t} {m} (advanced fuel others n c lt e) v =
    let same = Chain-unique s.cell s.task_list others tasks c v.scheduler.chain in
    next-Followed fuel tasks n s t m v (subst (λ l. length l < fuel) same lt) e
Step-Followed tasks {s} {t} {m} (switched fuel others c lt e) v =
    let same = Chain-unique s.cell s.task_list others tasks c v.scheduler.chain in
    switch-Followed fuel tasks s t m v (subst (λ l. length l < fuel) same lt) e

chained :
    (cell cell' cell'' : ℕ → Task) (tasks : List ℕ)
    → All (λ b. (cell b).state ≡ terminated → (cell' b).state ≡ terminated) tasks
    → All (λ b. (cell' b).state ≡ terminated → (cell'' b).state ≡ terminated) tasks
    → All (λ b. (cell b).state ≡ terminated → (cell'' b).state ≡ terminated) tasks
chained cell cell' cell'' [] h k = tt
chained cell cell' cell'' (b ∷ tasks) h k =
    ((λ e. k.0 (h.0 e)), chained cell cell' cell'' tasks h.1 k.1)

-- After any sequence of calls of `task_create`, `task_terminate` of NULL or of a task in the list,
-- `scheduler_next` and `scheduler_switch`, each with a result: the list has only grown, at its head,
-- by tasks at addresses of their own; at most one task is marked as running, and that is the current
-- one; no task's fields lie on the bitmap of the allocator; and a task whose state was TERMINATED
-- has that state still.
pub Reach-Followed :
    (tasks : List ℕ) {s : Scheduler} {m : Memory} {t : Scheduler} {m' : Memory}
    → Reach s m t m'
    → IsPlaced tasks s m
    → Followed tasks s t m'
Reach-Followed tasks {s} {m} here v = followed tasks s s m v v.scheduler (λ b h. h)
Reach-Followed tasks {s} {t = u} {m' = n} (next {t} r st) v =
    let f = Reach-Followed tasks r v in
    let g = Step-Followed (f.more ++ tasks) st f.placed in
    let (newer, older) =
      All-append (λ b. (t.cell b).state ≡ terminated → (u.cell b).state ≡ terminated) f.more tasks
        g.final in
    record {
      more = g.more ++ f.more;
      placed = subst (λ l. IsPlaced l u n) (sym (append_assoc g.more f.more tasks)) g.placed;
      final = chained s.cell t.cell u.cell tasks f.final older;
    }

-- `scheduler_init` empties the list, whatever it was.
pub init-IsPlaced : (s : Scheduler) (m : Memory) → Frames.IsValid m → IsPlaced [] (init s) m
unfolding init
init-IsPlaced s m v = record {
  scheduler = record { chain = refl; distinct = tt; current = inl refl; one_running = tt };
  memory = v;
  held = tt;
  clear = tt;
}

-- With fuel for the tasks, `get_task_count` ends, and returns the number of tasks in the list that
-- are not terminated.
pub get_task_count-alive :
    (fuel : ℕ) (tasks : List ℕ) (s : Scheduler)
    → IsValid tasks s
    → length tasks < fuel
    → length tasks < 2 ^ 32
    → get_task_count fuel s ≡ some (alive s.cell tasks)
unfolding get_task_count
get_task_count-alive fuel tasks s v lt small =
    count_tasks-alive fuel s.cell 0 s.task_list tasks v.chain lt (omega arith)
    ∙ ap some (omega arith)
