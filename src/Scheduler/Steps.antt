-- ===== src/Scheduler/Steps.antt =====
-- The calls of kernel/scheduler/scheduler.c that change its state, and what each leaves of the tasks.
use homeserver_os.Base.{
  ℕ, ◌<◌, ◌≡◌, ◌≢◌, inl, inr, refl, ◌∙◌, sym, ap, List, [], ◌∷◌, ◌++◌, some, arith, ◌==◌, length,
  Bool-cases, ◌⊎◌, none, some_inj, get_elem?,
}
use homeserver_os.Base.Table.Slots.{All}
use homeserver_os.Memory.{Memory}
use homeserver_os.Scheduler.{
  Scheduler, Task, running, terminated, task_create, task_terminate, scheduler_next,
  scheduler_switch, write,
}
use homeserver_os.Scheduler.Chain.{Chain, Chain-same}
use homeserver_os.Scheduler.Round.{IsValid}
use homeserver_os.Scheduler.Create.{IsPlaced, task_create-Created}

-- One call of a function that changes the state, `task_terminate` of NULL or of a task. A walk along
-- the list has fuel for its tasks.
pub data Step : Scheduler → Memory → Scheduler → Memory → Type 0 where
  created :
      (name : List ℕ) (entry urgency a : ℕ) {s t : Scheduler} {m m' : Memory}
      → task_create name entry urgency (s, m) ≡ some (a, t, m')
      → Step s m t m'
  ended :
      (a : ℕ) (tasks : List ℕ) {s : Scheduler} {m : Memory}
      → Chain s.cell s.task_list tasks
      → (a ≡ 0) ⊎ ((i : ℕ) × (get_elem? tasks i ≡ some a))
      → Step s m (task_terminate a s) m
  advanced :
      (fuel : ℕ) (tasks : List ℕ) (n : ℕ) {s t : Scheduler} {m : Memory}
      → Chain s.cell s.task_list tasks
      → length tasks < fuel
      → scheduler_next fuel s ≡ some (n, t)
      → Step s m t m
  switched :
      (fuel : ℕ) (tasks : List ℕ) {s t : Scheduler} {m : Memory}
      → Chain s.cell s.task_list tasks
      → length tasks < fuel
      → scheduler_switch fuel s ≡ some t
      → Step s m t m

-- What the calls leave of a list of tasks: it has grown at its head, it is well formed, and a task
-- that was terminated still is.
pub record Followed (tasks : List ℕ) (s t : Scheduler) (m : Memory) : Type 0 where
  pub more : List ℕ
  pub placed : IsPlaced (more ++ tasks) t m
  pub final : All (λ b. (s.cell b).state ≡ terminated → (t.cell b).state ≡ terminated) tasks

pub Chain-unique :
    (cell : ℕ → Task) (p : ℕ) (xs ys : List ℕ) → Chain cell p xs → Chain cell p ys → xs ≡ ys
Chain-unique cell p [] [] h k = refl
Chain-unique cell p [] (y ∷ ys) h k = absurd (k.1 (sym (k.0) ∙ h))
Chain-unique cell p (x ∷ xs) [] h k = absurd (h.1 (sym (h.0) ∙ k))
Chain-unique cell p (x ∷ xs) (y ∷ ys) h k =
    let same : x ≡ y = sym (h.0) ∙ k.0 in
    let rest : xs ≡ ys = Chain-unique cell (cell x).next xs ys h.2 (rw same (k.2)) in
    λ i. same i ∷ rest i

pub every : (P : ℕ → Type 0) (tasks : List ℕ) → ((b : ℕ) → P b) → All P tasks
every P [] h = tt
every P (b ∷ tasks) h = (h b, every P tasks h)

-- A call that writes no memory of another part.
pub followed :
    (tasks : List ℕ) (s t : Scheduler) (m : Memory)
    → IsPlaced tasks s m
    → IsValid tasks t
    → ((b : ℕ) → (s.cell b).state ≡ terminated → (t.cell b).state ≡ terminated)
    → Followed tasks s t m
followed tasks s t m v w f = record {
  more = [];
  placed = record { scheduler = w; memory = v.memory; held = v.held; clear = v.clear };
  final = every (λ b. (s.cell b).state ≡ terminated → (t.cell b).state ≡ terminated) tasks f;
}

created-final :
    (tasks : List ℕ) (a : ℕ) (s t : Scheduler)
    → All (λ b. b ≢ a) tasks
    → ((b : ℕ) → b ≢ a → t.cell b ≡ s.cell b)
    → All (λ b. (s.cell b).state ≡ terminated → (t.cell b).state ≡ terminated) tasks
created-final [] a s t ne same = tt
created-final (b ∷ tasks) a s t ne same =
    ((λ e. rw (same b ne.0) e), created-final tasks a s t ne.1 same)

pub create-Followed :
    (name : List ℕ) (entry urgency a : ℕ) (tasks : List ℕ) (s t : Scheduler) (m m' : Memory)
    → IsPlaced tasks s m
    → task_create name entry urgency (s, m) ≡ some (a, t, m')
    → Followed tasks s t m'
create-Followed name entry urgency a tasks s t m m' v e =
    elim (task_create-Created tasks name entry urgency s m v) [
      | inl (b, u, n, q, w) ↦
          let same_t : u ≡ t = ap (λ r. r.1) (some_inj (sym q ∙ e)) in
          let same_m : n ≡ m' = ap (λ r. r.2) (some_inj (sym q ∙ e)) in
          rw (← same_t, ← same_m)
            (record {
              more = b ∷ [];
              placed = w.placed;
              final = created-final tasks b s u w.fresh w.others;
            })
      | inr (inr (b, q, low, high, page)) ↦
          let clash : none ≡ some (a, t, m') = sym q ∙ e in absurd (cc)
      | inr (inl (n, q, w)) ↦
          let same_t : s ≡ t = ap (λ r. r.1) (some_inj (sym q ∙ e)) in
          let same_m : n ≡ m' = ap (λ r. r.2) (some_inj (sym q ∙ e)) in
          rw (← same_t, ← same_m) (followed tasks s s n w w.scheduler (λ b h. h))
    ]

abbrev end_task : Task → Task
end_task t = record t { state = terminated }

ended-All :
    (a c : ℕ) (cell : ℕ → Task) (tasks : List ℕ)
    → All (λ b. (cell b).state ≡ running → b ≡ c) tasks
    → All (λ b. (write a end_task cell b).state ≡ running → b ≡ c) tasks
ended-All a c cell [] h = tt
ended-All a c cell (b ∷ tasks) h = (one, ended-All a c cell tasks h.1)
  where
    one : (write a end_task cell b).state ≡ running → b ≡ c
    one e = elim (Bool-cases (b == a)) [
      | inl q ↦ let p : terminated ≡ running = rw q at e in absurd (cc)
      | inr q ↦ h.0 (rw q at e)
    ]

pub terminate-Followed :
    (a : ℕ) (tasks : List ℕ) (s : Scheduler) (m : Memory)
    → IsPlaced tasks s m
    → Followed tasks s (task_terminate a s) m
unfolding task_terminate
terminate-Followed a tasks s m v = elim (Bool-cases (a == 0)) [
  | inl e ↦ rw e (followed tasks s s m v v.scheduler (λ b h. h))
  | inr e ↦
      let w = v.scheduler in
      let cell' = write a end_task s.cell in
      rw e (
        followed tasks s (record s { cell = cell' }) m v
          (record {
            chain = Chain-same s.cell cell' s.task_list tasks (λ b. ground arith) w.chain;
            distinct = w.distinct;
            current = w.current;
            one_running = ended-All a s.current_task s.cell tasks w.one_running;
          })
          (λ b h. ground arith))
]
