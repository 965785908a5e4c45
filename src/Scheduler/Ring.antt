-- ===== src/Scheduler/Ring.antt =====
-- The order of turns of kernel/scheduler/scheduler.c: the list of its tasks as a ring.
use homeserver_os.Base.{
  ℕ, ◌≡◌, ◌⊎◌, inl, inr, refl, ◌∙◌, sym, ap, true, false, List, [], ◌∷◌, ◌++◌, Bool-cases,
}
use homeserver_os.Base.Table.Slots.{All}
use mathlib.Core.List.{append_assoc}
use homeserver_os.Scheduler.{Task, is_ready}
use homeserver_os.Scheduler.Chain.{next_in_turn}

pub split_append :
    (ls bs xs : List ℕ) (n : ℕ) (ys : List ℕ)
    → ls ++ bs ≡ xs ++ n ∷ ys
    → ((zs : List ℕ) × (ls ≡ xs ++ n ∷ zs) × (ys ≡ zs ++ bs))
      ⊎ ((zs : List ℕ) × (xs ≡ ls ++ zs) × (bs ≡ zs ++ n ∷ ys))
split_append [] bs xs n ys e = inr (xs, refl, e)
split_append (a ∷ ls) bs [] n ys e =
    let head : a ≡ n = cc in
    let tail : ls ++ bs ≡ ys = cc in inl (ls, ap (λ x. x ∷ ls) head, sym tail)
split_append (a ∷ ls) bs (x ∷ xs) n ys e =
    let head : a ≡ x = cc in
    let tail : ls ++ bs ≡ xs ++ n ∷ ys = cc in
    elim (split_append ls bs xs n ys tail) [
      | inl (zs, p, q) ↦ inl (zs, (λ i. head i ∷ p i), q)
      | inr (zs, p, q) ↦ inr (zs, (λ i. sym head i ∷ p i), q)
    ]

-- `ring` are the tasks behind `a`, and then those before it.
pub record IsRing (tasks : List ℕ) (a : ℕ) (ring : List ℕ) : Type 0 where
  pub before : List ℕ
  pub after : List ℕ
  pub here : tasks ≡ before ++ a ∷ after
  pub around : ring ≡ after ++ before

-- The ring, seen from another task.
pub IsRing-turned :
    (tasks : List ℕ) (a : ℕ) (xs : List ℕ) (n : ℕ) (ys : List ℕ)
    → IsRing tasks a (xs ++ n ∷ ys)
    → IsRing tasks n (ys ++ a ∷ xs)
IsRing-turned tasks a xs n ys r = elim (split_append r.after r.before xs n ys (sym r.around)) [
  | inl (zs, p, q) ↦ record {
    before = r.before ++ a ∷ xs;
    after = zs;
    here = r.here ∙ ap (λ l. r.before ++ a ∷ l) p ∙ sym (append_assoc r.before (a ∷ xs) (n ∷ zs));
    around = ap (λ l. l ++ a ∷ xs) q ∙ append_assoc zs r.before (a ∷ xs);
  }
  | inr (zs, p, q) ↦ record {
    before = zs;
    after = ys ++ a ∷ r.after;
    here = r.here ∙ ap (λ l. l ++ a ∷ r.after) q ∙ append_assoc zs (n ∷ ys) (a ∷ r.after);
    around = ap (λ l. ys ++ a ∷ l) p ∙ sym (append_assoc ys (a ∷ r.after) zs);
  }
]

-- The task whose turn it is: another one that is ready, or the given one where none is.
pub data Chosen (cell : ℕ → Task) (other : ℕ) : List ℕ → ℕ → Type 0 where
  nobody :
      {ring : List ℕ} → All (λ a. is_ready (cell a) ≡ false) ring → Chosen cell other ring other
  someone :
      {n : ℕ} (xs ys : List ℕ)
      → is_ready (cell n) ≡ true
      → All (λ a. is_ready (cell a) ≡ false) xs
      → {ring : List ℕ} → ring ≡ xs ++ n ∷ ys
      → Chosen cell other ring n

pub next_in_turn-Chosen :
    (cell : ℕ → Task) (other : ℕ) (ring : List ℕ)
    → Chosen cell other ring (next_in_turn cell other ring)
next_in_turn-Chosen cell other [] = nobody tt
next_in_turn-Chosen cell other (a ∷ ring) = elim (Bool-cases (is_ready (cell a))) [
  | inl e ↦ rw e (someone [] ring e tt refl)
  | inr e ↦ rw e (later e (next_in_turn-Chosen cell other ring))
]
  where
    later :
        {n : ℕ}
        → is_ready (cell a) ≡ false
        → Chosen cell other ring n
        → Chosen cell other (a ∷ ring) n
    later e (nobody h) = nobody (e, h)
    later e (someone xs ys r h q) = someone (a ∷ xs) ys r (e, h) (ap (λ l. a ∷ l) q)
