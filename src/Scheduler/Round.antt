-- ===== src/Scheduler/Round.antt =====
-- `scheduler_next` and `scheduler_switch` of kernel/scheduler/scheduler.c: the turns of the tasks.
use homeserver_os.Base.{
  ℕ, ◌+◌, ◌<◌, ◌≡◌, ◌≢◌, ◌⊎◌, inr, refl, ◌∙◌, sym, ap, true, false, List, [], ◌∷◌, ◌++◌, some,
  arith, ◌==◌, if◌then◌else◌, length, length-append,
}
use homeserver_os.Base.Table.Slots.{All}
use native.Mathlib.Decide.{ℕ_discrete}
use mathlib.Core.Path.{subst}
use homeserver_os.Scheduler.{
  Scheduler, Task, running, ready, ◌is◌, next_after, from_start, scheduler_next, scheduler_switch,
  switch_to, retire, write,
}
use homeserver_os.Scheduler.Ring.{
  IsRing, IsRing-turned, Chosen, nobody, someone, next_in_turn-Chosen,
}
use homeserver_os.Scheduler.Chain.{
  Chain, IsDistinct, next_in_turn, Chain-after, Chain-nonzero, Chain-same, All-append,
  IsDistinct-before, first_ready_all, first_ready_before, next_in_turn-append, next_in_turn-null,
}

-- Between two calls: the list is linked as `tasks` says, the current task stands in it, and no
-- other task is marked as running.
pub record IsValid (tasks : List ℕ) (s : Scheduler) : Type 0 where
  pub chain : Chain s.cell s.task_list tasks
  pub distinct : IsDistinct tasks
  pub current : (s.current_task ≡ 0) ⊎ ((ring : List ℕ) × IsRing tasks s.current_task ring)
  pub one_running : All (λ a. (s.cell a).state ≡ running → a ≡ s.current_task) tasks

module _ (fuel : ℕ) (before after : List ℕ) (s : Scheduler) where
  next_after_lem :
      Chain s.cell s.task_list (before ++ s.current_task ∷ after)
      → IsDistinct (before ++ s.current_task ∷ after)
      → length before + length after < fuel
      → next_after fuel s ≡ some (next_in_turn s.cell s.current_task (after ++ before))
  unfolding next_after
  next_after_lem c d lt =
      let cur = s.current_task in
      let (ne, rest) = Chain-after s.cell s.task_list cur before after c in
      let nonzero =
        All-append (λ a. a ≢ 0) before (cur ∷ after)
          (Chain-nonzero s.cell s.task_list (before ++ cur ∷ after) c) in
      let first = first_ready_all fuel s.cell (s.cell cur).next after rest (omega arith) in
      let second =
        first_ready_before fuel s.cell s.task_list cur before after c
          (IsDistinct-before cur before after d) (omega arith) in
      let back : from_start fuel s ≡ some (next_in_turn s.cell cur before) =
        rw second (ap some (next_in_turn-null s.cell cur before nonzero.0)) in
      rw first (rw back (chosen (next_in_turn s.cell 0 after) (next_in_turn s.cell cur before)))
      ∙ ap some (
          next_in_turn-null s.cell (next_in_turn s.cell cur before) after nonzero.1.1
          ∙ sym (next_in_turn-append s.cell cur after before))
    where
      chosen : (a b : ℕ) → (if a == 0 then some b else some a) ≡ some (if a == 0 then b else a)
      chosen a b = ground arith

-- With fuel for the tasks, `scheduler_next` returns the first task that is READY in the order of
-- the list from behind the current task on, and from the list's start up to it; where none is, the
-- current task.
pub scheduler_next-next_in_turn :
    (fuel : ℕ) (tasks ring : List ℕ) (s : Scheduler)
    → IsValid tasks s
    → IsRing tasks s.current_task ring
    → length tasks < fuel
    → scheduler_next fuel s ≡ some (next_in_turn s.cell s.current_task ring, s)
unfolding scheduler_next
scheduler_next-next_in_turn fuel tasks ring s v r lt =
    let c = subst (Chain s.cell s.task_list) r.here v.chain in
    let d = subst IsDistinct r.here v.distinct in
    let ne = (Chain-after s.cell s.task_list s.current_task r.before r.after c).0 in
    let some_task : (s.current_task == 0) ≡ false = ground (arith, ne) in
    let enough : length r.before + length r.after < fuel =
      omega (arith, ap length r.here, length-append r.before (s.current_task ∷ r.after)) in
    rw (r.around, some_task, next_after_lem fuel r.before r.after s c d enough) refl

-- What a turn of the task `n` leaves.
pub record Switched (tasks : List ℕ) (n : ℕ) (s t : Scheduler) : Type 0 where
  pub current : t.current_task ≡ n
  pub same : n ≡ s.current_task → t ≡ s
  pub now_running : n ≢ s.current_task → (t.cell n).state ≡ running
  pub stepped_down :
      n ≢ s.current_task
      → (t.cell s.current_task).state ≡ (
          if (s.cell s.current_task).state is running then ready else (s.cell s.current_task).state)
  pub others : (a : ℕ) → a ≢ n → a ≢ s.current_task → t.cell a ≡ s.cell a
  pub valid : IsValid tasks t

retire_next : (t : Task) → (retire t).next ≡ t.next
retire_next t = ground arith

retire_state : (t : Task) → (retire t).state ≡ (if t.state is running then ready else t.state)
retire_state t = ground arith

retire_stopped : (t : Task) → (retire t).state ≢ running
retire_stopped t = ground arith

abbrev turned : ℕ → Scheduler → ℕ → Task
turned n s = write n (λ t. record t { state = running }) (write s.current_task retire s.cell)

module _ (n : ℕ) (s : Scheduler) where
  turned_next : (a : ℕ) → (turned n s a).next ≡ (s.cell a).next
  turned_next a = ground (arith, retire_next (s.cell a))

  -- Only the task whose turn it is is marked as running.
  turned_running :
      (a : ℕ)
      → ((s.cell a).state ≡ running → a ≡ s.current_task)
      → (turned n s a).state ≡ running
      → a ≡ n
  turned_running a h e = elim (ℕ_discrete a n) [
    | yes same ↦ same
    | no other ↦ elim (ℕ_discrete a s.current_task) [
      | yes same ↦ absurd (retire_stopped (s.cell a) (ground arith))
      | no third ↦ absurd (third (h (ground arith)))
    ]
  ]

  turned-All :
      (tasks : List ℕ)
      → All (λ a. (s.cell a).state ≡ running → a ≡ s.current_task) tasks
      → All (λ a. (turned n s a).state ≡ running → a ≡ n) tasks
  turned-All [] h = tt
  turned-All (a ∷ tasks) h = (turned_running a h.0, turned-All tasks h.1)

switch_to-Switched :
    (tasks ring : List ℕ) (n : ℕ) (s : Scheduler)
    → IsValid tasks s
    → IsRing tasks n ring
    → Switched tasks n s (switch_to (n, s))
unfolding switch_to
switch_to-Switched tasks ring n s v r = elim (ℕ_discrete n s.current_task) [
  | yes same ↦
      let e : (n == s.current_task) ≡ true = ground arith in
      rw e (record {
        current = sym same;
        same = λ q. refl;
        now_running = λ ne. absurd (ne same);
        stepped_down = λ ne. absurd (ne same);
        others = λ a p q. refl;
        valid = v;
      })
  | no other ↦
      let e : (n == s.current_task) ≡ false = ground arith in
      rw e (record {
        current = refl;
        same = λ q. absurd (other q);
        now_running = λ ne. ground arith;
        stepped_down = λ ne. ground (arith, retire_state (s.cell s.current_task));
        others = λ a p q. ground arith;
        valid = record {
          chain = Chain-same s.cell (turned n s) s.task_list tasks (turned_next n s) v.chain;
          distinct = v.distinct;
          current = inr (ring, r);
          one_running = turned-All n s tasks v.one_running;
        };
      })
]

-- The ring of the task whose turn it is.
Chosen-IsRing :
    (cell : ℕ → Task) (tasks ring : List ℕ) (a n : ℕ)
    → IsRing tasks a ring
    → Chosen cell a ring n
    → (ring' : List ℕ) × IsRing tasks n ring'
Chosen-IsRing cell tasks ring a n r (nobody h) = (ring, r)
Chosen-IsRing cell tasks ring a n r (someone xs ys q h e) =
    (ys ++ a ∷ xs, IsRing-turned tasks a xs n ys (subst (IsRing tasks a) e r))

-- With fuel for the tasks, `scheduler_switch` returns. The task of `scheduler_next` is the current
-- one then; if it is another, it is marked as running, and the one before it as ready again if it
-- was running. No other task changes, and at most one is marked as running.
pub scheduler_switch-Switched :
    (fuel : ℕ) (tasks ring : List ℕ) (s : Scheduler)
    → IsValid tasks s
    → IsRing tasks s.current_task ring
    → length tasks < fuel
    → (t : Scheduler) × (scheduler_switch fuel s ≡ some t)
      × Switched tasks (next_in_turn s.cell s.current_task ring) s t
unfolding scheduler_switch
scheduler_switch-Switched fuel tasks ring s v r lt =
    let n = next_in_turn s.cell s.current_task ring in
    let c = subst (Chain s.cell s.task_list) r.here v.chain in
    let ne = (Chain-after s.cell s.task_list s.current_task r.before r.after c).0 in
    let some_task : (s.current_task == 0) ≡ false = ground (arith, ne) in
    let (ring', r') =
      Chosen-IsRing s.cell tasks ring s.current_task n r
        (next_in_turn-Chosen s.cell s.current_task ring) in
    (
      switch_to (n, s),
      rw (some_task, scheduler_next-next_in_turn fuel tasks ring s v r lt) refl,
      switch_to-Switched tasks ring' n s v r',
    )
