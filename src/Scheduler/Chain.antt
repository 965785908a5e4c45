-- ===== src/Scheduler/Chain.antt =====
-- The list of tasks of kernel/scheduler/scheduler.c, as the pointers of the structures link it, and
-- the loops that walk it.
use homeserver_os.Base.{
  ℕ, zero, suc, ◌+◌, ◌%◌, ◌^◌, ◌<◌, ◌≡◌, ◌≢◌, refl, ◌∙◌, sym, ap, true, false, List, [], ◌∷◌, ◌++◌,
  some, arith, ◌||◌, ◌≤◌, ◌==◌, if◌then◌else◌, length, Bool-cases, inl, inr,
}
use homeserver_os.Base.Table.Slots.{All}
use homeserver_os.Scheduler.{Task, terminated, ◌is◌, is_ready, first_ready, count_tasks}

-- The structures from the pointer `p` on are those at the addresses `tasks`, in this order.
abbrev pub Chain : (ℕ → Task) → ℕ → List ℕ → Type 0
Chain cell p [] = p ≡ 0
Chain cell p (a ∷ tasks) = (p ≡ a) × (a ≢ 0) × Chain cell (cell a).next tasks

-- No address stands twice.
abbrev pub IsDistinct : List ℕ → Type 0
IsDistinct [] = Unit
IsDistinct (a ∷ tasks) = All (λ b. b ≢ a) tasks × IsDistinct tasks

-- The first task that is ready, or another.
abbrev pub next_in_turn : (ℕ → Task) → ℕ → List ℕ → ℕ
next_in_turn cell other [] = other
next_in_turn cell other (a ∷ tasks) = if is_ready (cell a) then a else next_in_turn cell other tasks

-- The number of tasks that are not terminated.
abbrev pub alive : (ℕ → Task) → List ℕ → ℕ
alive cell [] = 0
alive cell (a ∷ tasks) = (if (cell a).state is terminated then 0 else 1) + alive cell tasks

pub Chain-after :
    (cell : ℕ → Task) (p a : ℕ) (before after : List ℕ)
    → Chain cell p (before ++ a ∷ after)
    → (a ≢ 0) × Chain cell (cell a).next after
Chain-after cell p a [] after h = (h.1, h.2)
Chain-after cell p a (b ∷ before) after h = Chain-after cell (cell b).next a before after h.2

pub Chain-nonzero :
    (cell : ℕ → Task) (p : ℕ) (tasks : List ℕ) → Chain cell p tasks → All (λ a. a ≢ 0) tasks
Chain-nonzero cell p [] h = tt
Chain-nonzero cell p (a ∷ tasks) h = (h.1, Chain-nonzero cell (cell a).next tasks h.2)

-- A write that leaves `next` alone leaves the list alone.
pub Chain-same :
    (cell cell' : ℕ → Task) (p : ℕ) (tasks : List ℕ)
    → ((a : ℕ) → (cell' a).next ≡ (cell a).next)
    → Chain cell p tasks
    → Chain cell' p tasks
Chain-same cell cell' p [] same h = h
Chain-same cell cell' p (a ∷ tasks) same h =
    (h.0, h.1, rw (same a) (Chain-same cell cell' (cell a).next tasks same h.2))

pub All-append {ℓ κ} :
    {A : Type ℓ} (P : A → Type κ) (xs ys : List A) → All P (xs ++ ys) → All P xs × All P ys
All-append P [] ys h = (tt, h)
All-append P (x ∷ xs) ys h = let (l, r) = All-append P xs ys h.1 in ((h.0, l), r)

pub append-All {ℓ κ} :
    {A : Type ℓ} (P : A → Type κ) (xs ys : List A) → All P xs → All P ys → All P (xs ++ ys)
append-All P [] ys h k = k
append-All P (x ∷ xs) ys h k = (h.0, append-All P xs ys h.1 k)

pub IsDistinct-before :
    (a : ℕ) (before after : List ℕ) → IsDistinct (before ++ a ∷ after) → All (λ b. b ≢ a) before
IsDistinct-before a [] after d = tt
IsDistinct-before a (b ∷ before) after d =
    let (l, r) = All-append (λ c. c ≢ b) before (a ∷ after) d.0 in
    ((λ e. r.0 (sym e)), IsDistinct-before a before after d.1)

pub IsDistinct-after :
    (a : ℕ) (before after : List ℕ) → IsDistinct (before ++ a ∷ after) → All (λ b. b ≢ a) after
IsDistinct-after a [] after d = d.0
IsDistinct-after a (b ∷ before) after d = IsDistinct-after a before after d.1

zero_test : (a : ℕ) → a ≢ 0 → (a == 0) ≡ false
zero_test a ne = ground arith

module _ (fuel : ℕ) (cell : ℕ → Task) (stop next : ℕ) where
  first_ready_end :
      (next == 0 || next == stop) ≡ true → first_ready (suc fuel) cell stop next ≡ some 0
  unfolding first_ready
  first_ready_end e = rw (e, first_ready) refl

  first_ready_here :
      (next == 0 || next == stop) ≡ false
      → is_ready (cell next) ≡ true
      → first_ready (suc fuel) cell stop next ≡ some next
  unfolding first_ready
  first_ready_here e q = rw (e, q, first_ready) refl

  first_ready_on :
      (next == 0 || next == stop) ≡ false
      → is_ready (cell next) ≡ false
      → first_ready (suc fuel) cell stop next ≡ first_ready fuel cell stop (cell next).next
  unfolding first_ready
  first_ready_on e q = rw (e, q, first_ready) refl

-- The first loop of `scheduler_next` ends, and finds the first task that is ready.
pub first_ready_all :
    (fuel : ℕ) (cell : ℕ → Task) (p : ℕ) (tasks : List ℕ)
    → Chain cell p tasks
    → length tasks < fuel
    → first_ready fuel cell 0 p ≡ some (next_in_turn cell 0 tasks)
first_ready_all zero cell p tasks h lt = absurd (omega arith)
first_ready_all (suc fuel) cell p [] h lt = rw h (first_ready_end fuel cell 0 0 refl)
first_ready_all (suc fuel) cell p (a ∷ tasks) h lt =
    let go_on : (a == 0 || a == 0) ≡ false = ground (arith, h.1) in
    let rest = first_ready_all fuel cell (cell a).next tasks h.2 (omega arith) in
    elim (Bool-cases (is_ready (cell a))) [
      | inl e ↦ rw (h.0) (rw e (first_ready_here fuel cell 0 a go_on e))
      | inr e ↦ rw (h.0) (rw e (first_ready_on fuel cell 0 a go_on e ∙ rest))
    ]

-- The second ends as well, before the current task.
pub first_ready_before :
    (fuel : ℕ) (cell : ℕ → Task) (p stop : ℕ) (before after : List ℕ)
    → Chain cell p (before ++ stop ∷ after)
    → All (λ a. a ≢ stop) before
    → length before < fuel
    → first_ready fuel cell stop p ≡ some (next_in_turn cell 0 before)
first_ready_before zero cell p stop before after h ne lt = absurd (omega arith)
first_ready_before (suc fuel) cell p stop [] after h ne lt =
    rw (h.0) (first_ready_end fuel cell stop stop (ground arith))
first_ready_before (suc fuel) cell p stop (a ∷ before) after h ne lt =
    let go_on : (a == 0 || a == stop) ≡ false = ground (arith, h.1, ne.0) in
    let rest =
      first_ready_before fuel cell (cell a).next stop before after h.2 ne.1 (omega arith) in
    elim (Bool-cases (is_ready (cell a))) [
      | inl e ↦ rw (h.0) (rw e (first_ready_here fuel cell stop a go_on e))
      | inr e ↦ rw (h.0) (rw e (first_ready_on fuel cell stop a go_on e ∙ rest))
    ]

count_tasks_on :
    (fuel : ℕ) (cell : ℕ → Task) (count a : ℕ)
    → a ≢ 0
    → count + 1 < 2 ^ 32
    → count_tasks (suc fuel) cell count a
      ≡ count_tasks fuel cell
          (count + (if (cell a).state is terminated then 0 else 1))
          (cell a).next
unfolding count_tasks
count_tasks_on fuel cell count a ne small =
    let n : ℕ = if (cell a).state is terminated then count else (count + 1) % 2 ^ 32 in
    let same : n ≡ count + (if (cell a).state is terminated then 0 else 1) = ground arith in
    let q : count_tasks (suc fuel) cell count a ≡ count_tasks fuel cell n (cell a).next =
      rw (zero_test a ne, count_tasks) refl in
    q ∙ ap (λ c. count_tasks fuel cell c (cell a).next) same

pub count_tasks-alive :
    (fuel : ℕ) (cell : ℕ → Task) (count p : ℕ) (tasks : List ℕ)
    → Chain cell p tasks
    → length tasks < fuel
    → count + length tasks < 2 ^ 32
    → count_tasks fuel cell count p ≡ some (count + alive cell tasks)
count_tasks-alive zero cell count p tasks h lt small = absurd (omega arith)
count_tasks-alive (suc fuel) cell count p [] h lt small =
    rw h (unfold count_tasks in ap some (omega arith))
count_tasks-alive (suc fuel) cell count p (a ∷ tasks) h lt small =
    let one : ℕ = if (cell a).state is terminated then 0 else 1 in
    let few : one ≤ 1 = ground arith in
    rw (h.0) (
      count_tasks_on fuel cell count a h.1 (omega arith)
      ∙ count_tasks-alive fuel cell (count + one) (cell a).next tasks h.2 (omega arith)
          (omega arith)
      ∙ ap some (omega arith))

pub next_in_turn-append :
    (cell : ℕ → Task) (other : ℕ) (xs ys : List ℕ)
    → next_in_turn cell other (xs ++ ys) ≡ next_in_turn cell (next_in_turn cell other ys) xs
next_in_turn-append cell other [] ys = refl
next_in_turn-append cell other (a ∷ xs) ys =
    ap (λ n. if is_ready (cell a) then a else n) (next_in_turn-append cell other xs ys)

-- NULL, by which the loops say that no task is ready, is no task.
pub next_in_turn-null :
    (cell : ℕ → Task) (other : ℕ) (tasks : List ℕ)
    → All (λ a. a ≢ 0) tasks
    → (if next_in_turn cell 0 tasks == 0 then other else next_in_turn cell 0 tasks)
      ≡ next_in_turn cell other tasks
next_in_turn-null cell other [] h = refl
next_in_turn-null cell other (a ∷ tasks) h = elim (Bool-cases (is_ready (cell a))) [
  | inl e ↦ rw (e, zero_test a h.0) refl
  | inr e ↦ rw e (next_in_turn-null cell other tasks h.1)
]
