-- ===== src/Backup/Records.antt =====
-- The table of backup/backup.c: its invariant, and the life of one backup.
use homeserver_os.Base.{
  ℕ, suc, ◌+◌, ◌-◌, ◌%◌, ◌^◌, ◌<◌, ◌≡◌, ◌≢◌, refl, ap, sym, ◌∙◌, false, List, [], ◌∷◌, ◌++◌, arith,
  length, leb, none, some, some_inj, take, Option, Option-cases, inl, inr,
}
use homeserver_os.Base.Int.{pos, minus_one}
use homeserver_os.Base.Text.{text, text-copy_text, length-copy_text}
use homeserver_os.Base.Table.{find, update_at, remove_first, erase_first}
use homeserver_os.Base.Table.Ids.{
  has_id, find-append_self, find-append_other, find-erase_first_self, find-erase_first_ne,
}
use homeserver_os.Base.Table.Slots.{All-get_elem?, update_at-write_at}
use homeserver_os.Base.Table.Laws.{
  write_at-Wrote, find_first-eq-find, remove_first-Removed, remove_first-none,
}
use homeserver_os.Base.Table.Valid.{
  IsTable, write_at-in_bounds, IsTable-write_at, IsTable-remove_first, find_next,
}
use homeserver_os.Base.Table.Change.{update_first-Changed}
use mathlib.Core.Path.{subst}
use homeserver_os.Backup.{
  Backups, Backup, BackupType, pending, completed, backup_id, fill_backup, create, run_backup,
  execute, answer, may_restore, restore, removed, delete, max_backups_size,
}

abbrev pub live : Backups → List Backup
live s = take s.count s.backups

-- The arrays of a slot have the declared sizes.
pub record IsSlot (b : Backup) : Type 0 where
  pub path_size : length b.path ≡ 256
  pub description_size : length b.description ≡ 128

-- Between two calls.
abbrev pub IsValid : Backups → Type 0
IsValid s = IsTable backup_id IsSlot max_backups_size s.backups s.count s.next_id

-- The backup under an id.
abbrev pub under : ℕ → Backups → Option Backup
under id s = find (has_id backup_id id) (live s)

-- What a `backup_create` that returns an id leaves.
pub record Created (type : BackupType) (description : List ℕ) (s t : Backups) : Type 0 where
  pub backup : Backup
  pub of_type : backup.type ≡ type
  pub status : backup.status ≡ pending
  pub described : text backup.description ≡ take 127 (text description)
  pub at_time : backup.timestamp ≡ 0
  pub fresh : under s.next_id s ≡ none
  pub found : under s.next_id t ≡ some backup
  pub others : (j : ℕ) → j ≢ s.next_id → under j t ≡ under j s
  pub appended : live t ≡ live s ++ backup ∷ []
  pub unusable : (path : List ℕ) → restore s.next_id path t ≡ minus_one
  pub same_config : t.config ≡ s.config
  pub counted : t.count ≡ s.count + 1
  pub valid : IsValid t

pub restore-under :
    (id : ℕ) (path : List ℕ) (s : Backups) → restore id path s ≡ may_restore (under id s)
unfolding restore
restore-under id path s =
    ap may_restore (find_first-eq-find (has_id backup_id id) s.count s.backups)

may_restore_pending : (b : Backup) → b.status ≡ pending → may_restore (some b) ≡ minus_one
unfolding may_restore
may_restore_pending b e = rw e refl

module _ (type : BackupType) (description : List ℕ) (s : Backups) where
  abbrev fill : Backup → Backup
  fill = fill_backup s.next_id type description s.config.backup_path

  fill-id : (b : Backup) → backup_id (fill b) ≡ s.next_id
  unfolding fill_backup
  fill-id b = refl

  fill-IsSlot : (b : Backup) → IsSlot b → IsSlot (fill b)
  unfolding fill_backup
  fill-IsSlot b h = record {
    path_size = length-copy_text 256 s.config.backup_path b.path ∙ h.path_size;
    description_size = length-copy_text 127 description b.description ∙ h.description_size;
  }

  -- While the table has a free entry and the counter of ids is not at its end, `backup_create`
  -- returns a new id and appends a PENDING backup under it, with the description cut at 127 bytes,
  -- which cannot be restored; no other backup changes.
  pub create-Created :
      IsValid s
      → s.count < max_backups_size
      → s.next_id + 1 < 2 ^ 32
      → (t : Backups) × (create type description s ≡ (s.next_id, t)) × Created type description s t
  unfolding create
  create-Created v room small =
      let (bs, e) = write_at-in_bounds backup_id IsSlot v fill room in
      let w = write_at-Wrote s.count fill s.backups e in
      let written : update_at s.count fill s.backups ≡ bs =
        update_at-write_at s.count fill s.backups e in
      let next : s.count + 1 ≡ suc s.count = omega arith in
      let below : leb max_backups_size s.count ≡ false = ground arith in
      let t : Backups = record s {
        backups = bs;
        count = s.count + 1;
        next_id = (s.next_id + 1) % 2 ^ 32;
      } in
      let appended : live t ≡ live s ++ fill w.old ∷ [] = rw next w.live in
      let free : under s.next_id s ≡ none = find_next backup_id IsSlot v in
      let found : under s.next_id t ≡ some (fill w.old) =
        rw appended
          (find-append_self backup_id s.next_id (live s) (fill w.old) free (fill-id w.old)) in
      let slot = All-get_elem? IsSlot s.count s.backups v.slots w.slot in
      (
        t,
        rw (below, written) refl,
        record {
          backup = fill w.old;
          of_type = unfold fill_backup in refl;
          status = unfold fill_backup in refl;
          described =
              unfold fill_backup in
              text-copy_text 127 description w.old.description
                (omega (arith, slot.description_size));
          at_time = unfold fill_backup in refl;
          fresh = free;
          found = found;
          others = λ j ne. rw appended (
              find-append_other backup_id j (live s) (fill w.old)
                (λ q. ne (sym q ∙ fill-id w.old)));
          appended = appended;
          unusable = λ path.
              restore-under s.next_id path t
              ∙ rw found (may_restore_pending (fill w.old) (unfold fill_backup in refl));
          same_config = refl;
          counted = refl;
          valid = IsTable-write_at backup_id IsSlot v fill fill-id fill-IsSlot e room small;
        },
      )

-- What a `backup_delete` that finds the id leaves.
pub record Deleted (id : ℕ) (s t : Backups) : Type 0 where
  pub erased : live t ≡ erase_first (has_id backup_id id) (live s)
  pub gone : under id t ≡ none
  pub others : (j : ℕ) → j ≢ id → under j t ≡ under j s
  pub fewer : t.count + 1 ≡ s.count
  pub same_config : t.config ≡ s.config
  pub valid : IsValid t

-- `backup_delete` of an id in use returns 0 and takes exactly the backup under it out of the table.
pub delete-Deleted :
    (id : ℕ) (s : Backups) (b : Backup)
    → IsValid s
    → under id s ≡ some b
    → (t : Backups) × (delete id s ≡ (pos 0, t)) × Deleted id s t
unfolding delete removed
delete-Deleted id s b v here =
    elim (Option-cases (remove_first (has_id backup_id id) s.count s.backups)) [
      | inl e ↦ absurd (cc (remove_first-none (has_id backup_id id) s.count s.backups e, here))
      | inr (bs, e) ↦
          let r =
            remove_first-Removed (has_id backup_id id) s.count s.backups
              (omega (arith, v.within, v.storage)) e in
          (
            record s { backups = bs; count = s.count - 1 },
            rw (e, removed) refl,
            record {
              erased = r.live;
              gone = rw r.live (find-erase_first_self backup_id id 1 s.next_id (live s) v.ids);
              others = λ j ne. rw r.live (find-erase_first_ne backup_id id j (live s) ne);
              fewer = omega (arith, r.nonempty);
              same_config = refl;
              valid = IsTable-remove_first backup_id IsSlot v (has_id backup_id id) e;
            },
          )
    ]

-- What a `backup_execute` that finds the id leaves.
pub record Executed (id : ℕ) (s t : Backups) : Type 0 where
  pub backup : Backup
  pub old : Backup
  pub was : under id s ≡ some old
  pub found : under id t ≡ some backup
  pub same_type : backup.type ≡ old.type
  pub status : backup.status ≡ completed
  pub others : (j : ℕ) → j ≢ id → under j t ≡ under j s
  pub usable : (path : List ℕ) → restore id path t ≡ pos 0
  pub same_count : t.count ≡ s.count
  pub valid : IsValid t

-- `backup_execute` of an id in use returns 0 and completes that backup and no other, whatever its
-- status was; from then on `backup_restore` of the id returns 0.
pub execute-Executed :
    (id : ℕ) (s : Backups) (b : Backup)
    → IsValid s
    → under id s ≡ some b
    → (t : Backups) × (execute id s ≡ (pos 0, t)) × Executed id s t
unfolding execute run_backup answer
execute-Executed id s b v here =
    let f = λ (b : Backup). some (run_backup b) in
    let (bs, e, c) =
      update_first-Changed backup_id IsSlot v f (λ x y q. ap backup_id (sym (some_inj q)))
        (λ x y h q. run-IsSlot x y h (some_inj q)) id here refl in
    let t : Backups = record s { backups = bs } in
    (
      t,
      rw (e, answer) refl,
      record {
        backup = run_backup b;
        old = b;
        was = here;
        found = c.found;
        same_type = refl;
        status = refl;
        others = c.others;
        usable = λ path. restore-under id path t ∙ rw (c.found) (unfold may_restore in refl);
        same_count = refl;
        valid = c.valid;
      },
    )
  where
    run-IsSlot : (x y : Backup) → IsSlot x → run_backup x ≡ y → IsSlot y
    run-IsSlot x y h q =
        subst IsSlot q (record { path_size = h.path_size; description_size = h.description_size })
