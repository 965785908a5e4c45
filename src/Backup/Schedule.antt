-- ===== src/Backup/Schedule.antt =====
-- `backup_schedule_check` of backup/backup.c.
use homeserver_os.Base.{
  ℕ, zero, suc, ◌+◌, ◌-◌, ◌^◌, ◌<◌, ◌≡◌, ◌≢◌, refl, ap, sym, ◌∙◌, true, false, List, [], ◌∷◌, arith,
  length, ltb, ◌==◌, none, some, some_inj, take,
}
use mathlib.Core.Path.{subst}
use homeserver_os.Base.Int.{pos}
use homeserver_os.Base.Text.{codes}
use homeserver_os.Base.Table.Slots.{All}
use homeserver_os.Base.Table.Ids.{Ascending-le}
use homeserver_os.Backup.{
  Backups, Backup, completed, backup_id, age, latest_of, latest_in, get_latest, is_due, execute,
  run_scheduled, restore, schedule_check,
}
use homeserver_os.Backup.Records.{live, IsValid, under, create-Created, execute-Executed}

-- As `backup_create` leaves the time of each backup.
abbrev pub IsTimeless : Backup → Type 0
IsTimeless b = b.timestamp ≡ 0

latest_of-IsTimeless :
    (n : ℕ) (b : Backup) (bs : List Backup)
    → IsTimeless b
    → All IsTimeless (take n bs)
    → IsTimeless (latest_of n b bs)
unfolding latest_of
latest_of-IsTimeless zero b bs h k = h
latest_of-IsTimeless (suc n) b [] h k = h
latest_of-IsTimeless (suc n) b (x ∷ bs) h k =
    let same : ltb b.timestamp x.timestamp ≡ false = ground (arith, h, k.0) in
    rw (same, latest_of) (latest_of-IsTimeless n b bs h k.1)

not_due :
    (interval n : ℕ) (bs : List Backup)
    → 0 < n
    → 0 < length bs
    → All IsTimeless (take n bs)
    → is_due interval (latest_in n bs) ≡ false
unfolding is_due latest_in
not_due interval n [] h k a = absurd (omega arith)
not_due interval n (b ∷ bs) h k a =
    let size : n ≡ suc (n - 1) = omega arith in
    let some_backup : (n == 0) ≡ false = ground arith in
    let a' = subst (λ m. All IsTimeless (take m (b ∷ bs))) size a in
    let e = latest_of-IsTimeless (n - 1) b bs a'.0 a'.1 in
    rw (some_backup, is_due) (due_at_zero (latest_of (n - 1) b bs) e)
  where
    due_at_zero : (x : Backup) → IsTimeless x → ltb interval (age x) ≡ false
    due_at_zero x e = ground (arith, e)

latest_none : (bs : List Backup) → latest_in 0 bs ≡ none
unfolding latest_in
latest_none [] = refl
latest_none (b ∷ bs) = refl

-- What a check leaves of a table without backups.
pub record Scheduled (s t : Backups) : Type 0 where
  pub backup : Backup
  pub found : under s.next_id t ≡ some backup
  pub of_type : backup.type ≡ s.config.default_type
  pub status : backup.status ≡ completed
  pub usable : (path : List ℕ) → restore s.next_id path t ≡ pos 0
  pub counted : t.count ≡ 1
  pub valid : IsValid t

run_scheduled_lem : (id : ℕ) (s : Backups) → 0 < id → run_scheduled (id, s) ≡ (execute id s).1
unfolding run_scheduled
run_scheduled_lem id s h = let e : ltb 0 id ≡ true = ground arith in rw e refl

module _ (s : Backups) (v : IsValid s) (on : s.config.enabled ≢ 0) where
  -- The scheduler of backups is enabled, and each backup has the time that `backup_create` gives it.
  -- While there is a backup a check changes nothing, whatever the interval is.
  pub schedule_check-idle : 0 < s.count → All IsTimeless (live s) → schedule_check s ≡ s
  unfolding schedule_check get_latest
  schedule_check-idle more times =
      let enabled : (s.config.enabled == 0) ≡ false = ground arith in
      let idle =
        not_due s.config.schedule_interval s.count s.backups more
          (omega (arith, v.storage, v.within)) times in
      rw (enabled, idle) refl

  -- Of an empty table it makes a backup of the default type, under a new id, which is complete and
  -- can be restored.
  pub schedule_check-Scheduled :
      s.count ≡ 0 → s.next_id + 1 < 2 ^ 32 → Scheduled s (schedule_check s)
  unfolding schedule_check get_latest
  schedule_check-Scheduled empty small =
      let enabled : (s.config.enabled == 0) ≡ false = ground arith in
      let due : is_due s.config.schedule_interval (latest_in s.count s.backups) ≡ true =
        rw (empty, latest_none s.backups) (unfold is_due in refl) in
      let text = codes "Scheduled backup" in
      let (t, e, c) = create-Created s.config.default_type text s v (omega (arith, empty)) small in
      let (u, q, x) = execute-Executed s.next_id t c.backup c.valid c.found in
      let first = Ascending-le backup_id 1 s.next_id (live s) v.ids in
      rw (enabled, due, e, run_scheduled_lem s.next_id t first, q)
        (record {
          backup = x.backup;
          found = x.found;
          of_type =
              x.same_type
              ∙ ap (λ (b : Backup). b.type) (some_inj (sym x.was ∙ c.found))
              ∙ c.of_type;
          status = x.status;
          usable = x.usable;
          counted = omega (arith, x.same_count, c.counted, empty);
          valid = x.valid;
        })
