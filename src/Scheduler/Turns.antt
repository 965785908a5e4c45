-- ===== src/Scheduler/Turns.antt =====
-- What the turns of kernel/scheduler/scheduler.c promise to a task that is ready.
use homeserver_os.Base.{
  ℕ, zero, suc, ◌+◌, ◌<◌, ◌≤◌, ◌≡◌, ◌≢◌, inl, inr, refl, ◌∙◌, sym, ap, true, false, List, [], ◌∷◌,
  ◌++◌, Option, some, arith, length, length-append, ◌>>=◌,
}
use homeserver_os.Base.Table.Slots.{All}
use native.Mathlib.Decide.{ℕ_discrete}
use mathlib.Core.Path.{subst}
use mathlib.Core.List.{append_assoc}
use homeserver_os.Scheduler.{Scheduler, Task, running, is_ready, scheduler_switch}
use homeserver_os.Scheduler.Chain.{next_in_turn, All-append}
use homeserver_os.Scheduler.Ring.{
  IsRing, IsRing-turned, Chosen, nobody, someone, next_in_turn-Chosen, split_append,
}
use homeserver_os.Scheduler.Round.{IsValid, scheduler_switch-Switched}

-- That many calls of `scheduler_switch`
abbrev pub turns : ℕ → ℕ → Scheduler → Option Scheduler
turns fuel zero s = some s
turns fuel (suc k) s = scheduler_switch fuel s >>= turns fuel k

-- The next task `n`, where `a` is ready behind the tasks `xs`: it is `a`, or one of `xs`.
data Progress (tasks : List ℕ) (a : ℕ) (xs ys : List ℕ) (n : ℕ) : Type 0 where
  arrived : n ≡ a → Progress tasks a xs ys n
  nearer :
      (zs rest : List ℕ)
      → length zs < length xs
      → IsRing tasks n (zs ++ a ∷ rest)
      → Progress tasks a xs ys n

Chosen-Progress :
    (cell : ℕ → Task) (tasks : List ℕ) (current a n : ℕ) (xs ys ring : List ℕ)
    → is_ready (cell a) ≡ true
    → ring ≡ xs ++ a ∷ ys
    → IsRing tasks current ring
    → Chosen cell current ring n
    → Progress tasks a xs ys n
Chosen-Progress cell tasks current a n xs ys ring h e r (nobody idle) =
    let l = subst (All (λ b. is_ready (cell b) ≡ false)) e idle in
    let p = (All-append (λ b. is_ready (cell b) ≡ false) xs (a ∷ ys) l).1.0 in absurd (cc)
Chosen-Progress cell tasks current a n xs ys ring h e r (someone ps qs w idle q) =
    elim (split_append ps (n ∷ qs) xs a ys (sym q ∙ e)) [
      | inl (zs, u, v) ↦
          let l = subst (All (λ b. is_ready (cell b) ≡ false)) u idle in
          let p = (All-append (λ b. is_ready (cell b) ≡ false) xs (a ∷ zs) l).1.0 in absurd (cc)
      | inr (zs, u, v) ↦ go zs u v
    ]
  where
    go : (zs : List ℕ) → xs ≡ ps ++ zs → n ∷ qs ≡ zs ++ a ∷ ys → Progress tasks a xs ys n
    go [] u v = arrived (cc)
    go (z ∷ zs) u v =
        let tail : qs ≡ zs ++ a ∷ ys = cc in
        let turned = IsRing-turned tasks current ps n qs (subst (IsRing tasks current) q r) in
        nearer zs (ys ++ current ∷ ps) (omega (arith, ap length u, length-append ps (z ∷ zs))) (
          subst (IsRing tasks n)
            (ap (λ l. l ++ current ∷ ps) tail ∙ append_assoc zs (a ∷ ys) (current ∷ ps)) turned)

-- What is promised: the task runs after at most `most` turns.
pub record Served (fuel : ℕ) (tasks : List ℕ) (a most : ℕ) (s : Scheduler) : Type 0 where
  pub count : ℕ
  pub soon : count ≤ most
  pub result : Scheduler
  pub reached : turns fuel count s ≡ some result
  pub its_turn : result.current_task ≡ a
  pub runs : (result.cell a).state ≡ running
  pub valid : IsValid tasks result

one_more :
    (fuel : ℕ) (tasks : List ℕ) (a most more : ℕ) (s t : Scheduler)
    → scheduler_switch fuel s ≡ some t
    → most < more
    → Served fuel tasks a most t
    → Served fuel tasks a more s
one_more fuel tasks a most more s t e lt w = record {
  count = suc w.count;
  soon = omega (arith, w.soon);
  result = w.result;
  reached = rw e (w.reached);
  its_turn = w.its_turn;
  runs = w.runs;
  valid = w.valid;
}

served :
    (m fuel : ℕ) (tasks : List ℕ) (a : ℕ) (xs ys : List ℕ) (s : Scheduler)
    → length xs < m
    → IsValid tasks s
    → IsRing tasks s.current_task (xs ++ a ∷ ys)
    → a ≢ s.current_task
    → is_ready (s.cell a) ≡ true
    → length tasks < fuel
    → Served fuel tasks a (length xs + 1) s
served zero fuel tasks a xs ys s lt v r ne h f = absurd (omega arith)
served (suc m) fuel tasks a xs ys s lt v r ne h f =
    let ring = xs ++ a ∷ ys in
    let n = next_in_turn s.cell s.current_task ring in
    let (t, e, w) = scheduler_switch-Switched fuel tasks ring s v r f in
    elim (Chosen-Progress s.cell tasks s.current_task a n xs ys ring h refl r
      (next_in_turn-Chosen s.cell s.current_task ring)) [
        | arrived q ↦ record {
          count = 1;
          soon = omega arith;
          result = t;
          reached = rw e refl;
          its_turn = w.current ∙ q;
          runs = subst (λ b. (t.cell b).state ≡ running) q (w.now_running (λ c. ne (sym q ∙ c)));
          valid = w.valid;
        }
        | nearer zs rest shorter r' ↦ elim (ℕ_discrete a n) [
          | yes same ↦ record {
            count = 1;
            soon = omega arith;
            result = t;
            reached = rw e refl;
            its_turn = w.current ∙ sym same;
            runs =
                subst (λ b. (t.cell b).state ≡ running) (sym same)
                  (w.now_running (λ c. ne (same ∙ c)));
            valid = w.valid;
          }
          | no other ↦ one_more fuel tasks a (length zs + 1) (length xs + 1) s t e (omega arith) (
              served m fuel tasks a zs rest t (omega arith) w.valid
                (subst (λ c. IsRing tasks c (zs ++ a ∷ rest)) (sym w.current) r')
                (λ c. other (c ∙ w.current)) (rw (w.others a other ne) h) f)
        ]
      ]

-- No task that is READY is passed over for ever: behind a current task, and with fuel for the tasks,
-- it is the one that runs after so many calls of `scheduler_switch` at most as there are tasks
-- between the two, and one more. The task itself need do nothing for it.
pub ready-Served :
    (fuel : ℕ) (tasks : List ℕ) (a : ℕ) (xs ys : List ℕ) (s : Scheduler)
    → IsValid tasks s
    → IsRing tasks s.current_task (xs ++ a ∷ ys)
    → a ≢ s.current_task
    → is_ready (s.cell a) ≡ true
    → length tasks < fuel
    → Served fuel tasks a (length xs + 1) s
ready-Served fuel tasks a xs ys s v r ne h f =
    served (suc (length xs)) fuel tasks a xs ys s (omega arith) v r ne h f
