-- ===== src/Backup/Cleanup.antt =====
-- `backup_cleanup_old` of backup/backup.c: both of its loops end, and what they keep.
use homeserver_os.Base.{
  ℕ, zero, suc, ◌-◌, ◌<◌, ◌≤◌, ◌≡◌, refl, ap, sym, ◌∙◌, true, false, List, [], ◌∷◌, arith, length,
  ltb, ltb→lt, some, take, get_elem?, inl, inr, if◌then◌else◌, Bool-cases,
}
use mathlib.Core.Path.{subst}
use homeserver_os.Base.Table.{find, erase_first}
use homeserver_os.Base.Table.Ids.{has_id, Ascending}
use homeserver_os.Base.Table.Slots.{All}
use homeserver_os.Base.Table.Places.{find-get_elem?}
use homeserver_os.Base.Table.Valid.{length-live}
use homeserver_os.Backup.{
  Backups, Backup, Config, backup_id, delete, oldest_of, oldest_id, trim, cleanup_old,
}
use homeserver_os.Backup.Records.{live, IsSlot, IsValid, delete-Deleted}
use homeserver_os.Backup.Expire.{kept, expire-Expired}

-- `b` is in the list, and no backup in it is older.
pub record IsOldest (b : Backup) (xs : List Backup) : Type 0 where
  pub here : find (has_id backup_id b.id) xs ≡ some b
  pub oldest : All (λ x. b.timestamp ≤ x.timestamp) xs

-- `ys` is left of `xs` when one oldest backup after the other goes, until no more than `n` are there.
pub data Trims (n : ℕ) : List Backup → List Backup → Type 0 where
  enough : {xs : List Backup} → length xs ≤ n → Trims n xs xs
  drop_oldest :
      {xs ys : List Backup} (b : Backup)
      → n < length xs
      → IsOldest b xs
      → Trims n (erase_first (has_id backup_id b.id) xs) ys
      → Trims n xs ys

-- What the search for the oldest finds.
record Found (o b : Backup) (bs : List Backup) : Type 0 where
  place : ℕ
  at_place : get_elem? (b ∷ bs) place ≡ some o
  oldest : All (λ x. o.timestamp ≤ x.timestamp) (b ∷ bs)

Found-behind :
    (o b x : Backup) (bs : List Backup)
    → Found o (if ltb x.timestamp b.timestamp then x else b) bs
    → Found o b (x ∷ bs)
Found-behind o b x bs f = elim (Bool-cases (ltb x.timestamp b.timestamp)) [
  | inl e ↦ behind (rw e at f) e
  | inr e ↦ before (rw e at f) e
]
  where
    behind : Found o x bs → ltb x.timestamp b.timestamp ≡ true → Found o b (x ∷ bs)
    behind g e = record {
      place = suc g.place;
      at_place = g.at_place;
      oldest = (omega (arith, ltb→lt _ _ e, g.oldest.0), g.oldest);
    }

    before_at :
        (place : ℕ)
        → get_elem? (b ∷ bs) place ≡ some o
        → (k : ℕ) × (get_elem? (b ∷ x ∷ bs) k ≡ some o)
    before_at zero q = (zero, q)
    before_at (suc k) q = (suc (suc k), q)

    before : Found o b bs → ltb x.timestamp b.timestamp ≡ false → Found o b (x ∷ bs)
    before g e =
        let (k, q) = before_at g.place g.at_place in
        record {
          place = k;
          at_place = q;
          oldest = (g.oldest.0, (ground (arith, g.oldest.0), g.oldest.1));
        }

oldest_of-Found : (n : ℕ) (b : Backup) (bs : List Backup) → Found (oldest_of n b bs) b (take n bs)
unfolding oldest_of
oldest_of-Found zero b bs = record { place = 0; at_place = refl; oldest = (omega arith, tt) }
oldest_of-Found (suc n) b [] = record { place = 0; at_place = refl; oldest = (omega arith, tt) }
oldest_of-Found (suc n) b (x ∷ bs) =
    let b' = if ltb x.timestamp b.timestamp then x else b in
    Found-behind (oldest_of n b' bs) b x (take n bs) (oldest_of-Found n b' bs)

oldest_id-IsOldest :
    (s : Backups) (bs : List Backup) (next : ℕ)
    → 0 < s.count
    → 0 < length bs
    → Ascending backup_id 1 next (take s.count bs)
    → (o : Backup) × (oldest_id s bs ≡ o.id) × IsOldest o (take s.count bs)
unfolding oldest_id
oldest_id-IsOldest s [] next h k a = absurd (omega arith)
oldest_id-IsOldest s (b ∷ bs) next h k a =
    let o = oldest_of (s.count - 1) b bs in
    let f = oldest_of-Found (s.count - 1) b bs in
    let size : s.count ≡ suc (s.count - 1) = omega arith in
    let live_now : take s.count (b ∷ bs) ≡ b ∷ take (s.count - 1) bs =
      ap (λ n. take n (b ∷ bs)) size in
    let a' = subst (Ascending backup_id 1 next) live_now a in
    (
      o,
      refl,
      subst (IsOldest o) (sym live_now) (record {
        here = find-get_elem? backup_id 1 next f.place (b ∷ take (s.count - 1) bs) a' f.at_place;
        oldest = f.oldest;
      }),
    )

trim_end :
    (fuel : ℕ) (s : Backups) → ltb s.config.max_backups s.count ≡ false → trim (suc fuel) s ≡ some s
unfolding trim
trim_end fuel s e = rw (e, trim) refl

trim_step :
    (fuel : ℕ) (s : Backups)
    → ltb s.config.max_backups s.count ≡ true
    → trim (suc fuel) s ≡ trim fuel (delete (oldest_id s s.backups) s).1
unfolding trim
trim_step fuel s e = rw (e, trim) refl

trim-Trims :
    (fuel : ℕ) (s : Backups)
    → IsValid s
    → length (live s) < fuel
    → (t : Backups) × (trim fuel s ≡ some t)
      × Trims s.config.max_backups (live s) (live t)
      × (t.config ≡ s.config)
      × IsValid t
trim-Trims zero s v lt = absurd (omega arith)
trim-Trims (suc fuel) s v lt = elim (Bool-cases (ltb s.config.max_backups s.count)) [
  | inr few ↦
      let size = length-live backup_id IsSlot v in
      (s, trim_end fuel s few, enough (ground (arith, size)), refl, v)
  | inl many ↦
      let size = length-live backup_id IsSlot v in
      let more = ltb→lt s.config.max_backups s.count many in
      let (o, named, w) =
        oldest_id-IsOldest s s.backups s.next_id (omega arith) (omega (arith, v.storage)) v.ids in
      let (u, q, d) = delete-Deleted o.id s o v w.here in
      let size' = length-live backup_id IsSlot d.valid in
      let (t, r, x, same, valid) =
        trim-Trims fuel u d.valid (omega (arith, size, size', d.fewer)) in
      (
        t,
        trim_step fuel s many
            ∙ ap (λ k. trim fuel (delete k s).1) named
            ∙ ap (λ r. trim fuel r.1) q
            ∙ r,
        drop_oldest o (omega (arith, size)) w (
            subst (λ l. Trims s.config.max_backups l (live t)) d.erased
              (subst (λ (c : Config). Trims c.max_backups (live u) (live t)) d.same_config x)),
        same ∙ d.same_config,
        valid,
      )
]

-- With fuel for 31 rounds each, both loops of `backup_cleanup_old` end. The first drops exactly the
-- backups that are older than the policy lets them be; of those left, the second drops an oldest one
-- at a time until no more than `max_backups` are there. The others keep their order.
pub cleanup_old-Trims :
    (s : Backups)
    → IsValid s
    → (t : Backups) × (cleanup_old 31 s ≡ some t)
      × Trims s.config.max_backups (kept s (live s)) (live t)
      × IsValid t
unfolding cleanup_old
cleanup_old-Trims s v =
    let size = length-live backup_id IsSlot v in
    let (u, q, x) = expire-Expired 31 s [] (live s) s v refl (omega (arith, size, v.within)) in
    let size' = length-live backup_id IsSlot x.valid in
    let (t, r, w, same, valid) = trim-Trims 31 u x.valid (omega (arith, size', x.valid.within)) in
    (
      t,
      rw q r,
      subst (λ l. Trims s.config.max_backups l (live t)) x.live_after
          (subst (λ (c : Config). Trims c.max_backups (live u) (live t)) x.same_config w),
      valid,
    )
