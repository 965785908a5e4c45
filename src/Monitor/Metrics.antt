-- ===== src/Monitor/Metrics.antt =====
-- `record_metric` and `get_metric` of monitoring/monitor.c.
use homeserver_os.Base.{
  ℕ, zero, suc, ◌+◌, ◌<◌, ◌≤◌, ◌≡◌, ◌⊎◌, inl, inr, refl, sym, ap, ◌∙◌, Bool, true, false, List, [],
  ◌∷◌, ◌++◌, ◌==◌, ◌&&◌, if◌then◌else◌, none, some, arith, ltb, ltb→lt, some_inj, length, take,
  Option-cases, Bool-cases,
}
use homeserver_os.Base.Text.{text, match_key, match_key-copy_text, length-copy_text}
use homeserver_os.Base.Table.{find, update_first, update_at, replace_first}
use homeserver_os.Base.Table.Laws.{find_first-eq-find}
use homeserver_os.Base.Table.Updates.{update_first-Updated, update_first-none}
use homeserver_os.Base.Table.Keyed.{find-append_none, find-replace_first_pass}
use homeserver_os.Base.Table.Slots.{
  All, All-get_elem?, All-update_at, All-update_first, length-update_at, get_elem?-some,
  take-update_at,
}
use mathlib.Core.Path.{subst}
use homeserver_os.Monitor.{
  Monitor, Metric, max_metrics, is_named, set_value, fill_metric, stored, record_metric, get_metric,
  value_or_zero,
}

-- `char name[64]`
abbrev pub HasName : Metric → Type 0
HasName x = length x.name ≡ 64

pub record IsMetrics (m : Monitor) : Type 0 where
  pub storage : length m.metrics ≡ max_metrics
  pub within : m.metric_count ≤ max_metrics
  pub names : All HasName m.metrics

abbrev pub known : Monitor → List Metric
known m = take m.metric_count m.metrics

-- Neither name is a start of the other.
abbrev agree : ℕ → List ℕ → List ℕ → Bool
agree zero a b = true
agree (suc n) [] b = true
agree (suc n) (x ∷ a) [] = true
agree (suc n) (x ∷ a) (y ∷ b) =
    if x == 0 then true else if y == 0 then true else (x == y) && agree n a b

abbrev pub Apart : List ℕ → List ℕ → Type 0
Apart a b = agree 64 a b ≡ false

-- Two names by which one metric is found agree.
match_both :
    (n : ℕ) (stored a b : List ℕ)
    → match_key n stored a ≡ true
    → match_key n stored b ≡ true
    → agree n a b ≡ true
unfolding match_key
match_both zero s a b h k = refl
match_both (suc n) s [] b h k = refl
match_both (suc n) s (x ∷ a) [] h k = refl
match_both (suc n) [] (x ∷ a) (y ∷ b) h k = ground arith
match_both (suc n) (c ∷ s) (x ∷ a) (y ∷ b) h k = ground (arith, match_both n s a b)

find-append_skip {ℓ} :
    {A : Type ℓ} (p : A → Bool) (y : A) (xs : List A)
    → p y ≡ false
    → find p (xs ++ y ∷ []) ≡ find p xs
find-append_skip p y [] h = rw h refl
find-append_skip p y (x ∷ xs) h = ground (arith, find-append_skip p y xs)

find-passes {ℓ} :
    {A : Type ℓ} (p : A → Bool) (xs : List A) {x : A} → find p xs ≡ some x → p x ≡ true
find-passes p [] e = absurd (cc)
find-passes p (y ∷ xs) {x} e = elim (Bool-cases (p y)) [
  | inl q ↦ let here : some y ≡ some x = rw q at e in subst (λ z. p z ≡ true) (some_inj here) q
  | inr q ↦ find-passes p xs (rw q at e)
]

find-replace_first_skip {ℓ} :
    {A : Type ℓ} (p q : A → Bool) (y : A) (xs : List A)
    → ((x : A) → q x ≡ true → p x ≡ false)
    → p y ≡ false
    → find p (replace_first q y xs) ≡ find p xs
find-replace_first_skip p q y [] h k = refl
find-replace_first_skip p q y (x ∷ xs) h k = elim (Bool-cases (q x)) [
  | inl e ↦ rw (e, h x e, k) refl
  | inr e ↦ rw e (ap (λ r. if p x then some x else r) (find-replace_first_skip p q y xs h k))
]

-- What `record_metric` leaves where it finds the name, or a free entry.
pub record Recorded (name : List ℕ) (value : ℕ) (m t : Monitor) : Type 0 where
  pub got : get_metric name t ≡ value
  pub others : (key : List ℕ) → Apart name key → get_metric key t ≡ get_metric key m
  pub at_most_one : t.metric_count ≤ m.metric_count + 1
  pub same_stats : t.current_stats ≡ m.current_stats
  pub valid : IsMetrics t

module _ (name : List ℕ) (value : ℕ) (m : Monitor) (v : IsMetrics m) where
  get_metric-find :
      (key : List ℕ) (t : Monitor)
      → get_metric key t ≡ value_or_zero (find (is_named key) (known t))
  unfolding get_metric
  get_metric-find key t =
      ap value_or_zero (find_first-eq-find (is_named key) t.metric_count t.metrics)

  Apart-named :
      (key : List ℕ)
      → Apart name key
      → (x : Metric) → is_named name x ≡ true
      → is_named key x ≡ false
  Apart-named key h x e = elim (Bool-cases (is_named key x)) [
    | inl k ↦ absurd (cc (match_both 64 x.name name key e k))
    | inr k ↦ k
  ]

  set_value-named :
      (now : ℕ) (x : Metric) (key : List ℕ) → is_named key (set_value value now x) ≡ is_named key x
  unfolding set_value
  set_value-named now x key = refl

  set_value-value : (now : ℕ) (x : Metric) → (set_value value now x).value ≡ value
  unfolding set_value
  set_value-value now x = refl

  found-Recorded :
      (xs : List Metric)
      → update_first
          (is_named name)
          (λ x. some (set_value value m.current_stats.uptime x))
          m.metric_count
          m.metrics
        ≡ some xs
      → Recorded name value m (record m { metrics = xs })
  found-Recorded xs e =
      let now = m.current_stats.uptime in
      let f = λ (x : Metric). some (set_value value now x) in
      let t : Monitor = record m { metrics = xs } in
      let u = update_first-Updated (is_named name) f m.metric_count m.metrics e in
      let new : set_value value now u.old ≡ u.new = some_inj u.passed in
      let hit : is_named name u.new ≡ true =
        rw (← new)
          (set_value-named now u.old name ∙ find-passes (is_named name) (known m) u.found) in
      let first = find-replace_first_pass (is_named name) u.new (known m) u.found hit in
      record {
        got =
            get_metric-find name t
            ∙ rw (u.live, first)
                (ap (λ (x : Metric). x.value) (sym new) ∙ set_value-value now u.old);
        others = λ key h.
            let skip =
              find-replace_first_skip (is_named key) (is_named name) u.new (known m)
                (Apart-named key h) (Apart-named key h u.new hit) in
            get_metric-find key t ∙ rw (u.live, skip) (sym (get_metric-find key m));
        at_most_one = omega arith;
        same_stats = refl;
        valid = record {
          storage = u.same_length ∙ v.storage;
          within = v.within;
          names =
              All-update_first HasName (is_named name) f
                (λ x y h q. subst HasName (some_inj q) (unfold set_value in h)) m.metric_count
                m.metrics v.names e;
        };
      }

  -- A new entry, behind the others.
  added-Recorded :
      length (text name) ≤ 63
      → find (is_named name) (known m) ≡ none
      → m.metric_count < max_metrics
      → Recorded name value m (record m {
        metrics =
            update_at m.metric_count (fill_metric name value m.current_stats.uptime) m.metrics;
        metric_count = m.metric_count + 1;
      })
  unfolding fill_metric
  added-Recorded short absent room =
      let now = m.current_stats.uptime in
      let f = fill_metric name value now in
      let t : Monitor = record m {
        metrics = update_at m.metric_count f m.metrics;
        metric_count = m.metric_count + 1;
      } in
      let (old, here) = get_elem?-some m.metric_count m.metrics (omega (arith, v.storage)) in
      let size = All-get_elem? HasName m.metric_count m.metrics v.names here in
      let one_more : m.metric_count + 1 ≡ suc m.metric_count = omega arith in
      let live : known t ≡ known m ++ f old ∷ [] =
        rw one_more (take-update_at m.metric_count f m.metrics here) in
      let hit : is_named name (f old) ≡ true =
        match_key-copy_text 64 63 name old.name short (omega (arith, size)) in
      let last = find-append_none (is_named name) (f old) (known m) absent hit in
      record {
        got = get_metric-find name t ∙ rw (live, last) refl;
        others = λ key h.
            let skip =
              find-append_skip (is_named key) (f old) (known m) (Apart-named key h (f old) hit) in
            get_metric-find key t ∙ rw (live, skip) (sym (get_metric-find key m));
        at_most_one = omega arith;
        same_stats = refl;
        valid = record {
          storage = length-update_at m.metric_count f m.metrics ∙ v.storage;
          within = omega arith;
          names =
              All-update_at HasName m.metric_count f (λ x h. length-copy_text 63 name x.name ∙ h)
                m.metrics v.names;
        };
      }

  -- `record_metric` with a name of at most 63 bytes, while the table has a free entry or has the name:
  -- `get_metric` returns the value that was recorded, and the value of every other name is as before, of
  -- which neither the recorded one nor itself is a start of the other.
  pub record_metric-Recorded :
      length (text name) ≤ 63
      → (m.metric_count < max_metrics) ⊎ ((x : Metric) × (find (is_named name) (known m) ≡ some x))
      → Recorded name value m (record_metric name value m)
  unfolding record_metric stored
  record_metric-Recorded short room =
      let f = λ (x : Metric). some (set_value value m.current_stats.uptime x) in
      elim (Option-cases (update_first (is_named name) f m.metric_count m.metrics)) [
        | inr (xs, e) ↦ rw (e, stored) (found-Recorded xs e)
        | inl e ↦
            let absent = missing e in
            let less : ltb m.metric_count max_metrics ≡ true = free absent room in
            rw (e, stored) (rw less (added-Recorded short absent (ltb→lt _ _ less)))
      ]
    where
      missing :
          update_first
              (is_named name)
              (λ x. some (set_value value m.current_stats.uptime x))
              m.metric_count
              m.metrics
            ≡ none
          → find (is_named name) (known m) ≡ none
      missing e =
          elim (update_first-none (is_named name)
            (λ x. some (set_value value m.current_stats.uptime x)) m.metric_count m.metrics e) [
              | inl q ↦ q
              | inr (x, q, r) ↦ absurd (cc)
            ]

      free :
          find (is_named name) (known m) ≡ none
          → (m.metric_count < max_metrics)
            ⊎ ((x : Metric) × (find (is_named name) (known m) ≡ some x))
          → ltb m.metric_count max_metrics ≡ true
      free absent (inl lt) = ground arith
      free absent (inr (x, e)) = absurd (cc)
