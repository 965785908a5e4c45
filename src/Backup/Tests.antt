-- ===== src/Backup/Tests.antt =====
-- Runs of backup/backup.c on small inputs.
use homeserver_os.Base.{◌≡◌, refl, ◌∷◌, ◌++◌, arith, replicate, some}
use homeserver_os.Base.Int.{pos}
use homeserver_os.Base.Text.{codes}
use homeserver_os.Base.Table.Slots.{All-replicate}
use homeserver_os.Backup.{
  Backups, Backup, full, incremental, pending, execute, cleanup_old, schedule_check,
}
use homeserver_os.Backup.Records.{live, IsSlot, IsValid, Executed, execute-Executed}
use homeserver_os.Backup.Expire.{kept}
use homeserver_os.Backup.Cleanup.{Trims, cleanup_old-Trims}
use homeserver_os.Backup.Schedule.{schedule_check-idle}

abbrev blank : Backup
blank = record {
  id = 0;
  type = full;
  status = pending;
  path = replicate 256 0;
  timestamp = 0;
  size = 0;
  file_count = 0;
  description = replicate 128 0;
}

blank-IsSlot : IsSlot blank
blank-IsSlot = record { path_size = refl; description_size = refl }

-- No backup, under a policy that keeps one.
abbrev empty : Backups
empty = record {
  backups = replicate 30 blank;
  count = 0;
  config = record {
    enabled = 1;
    default_type = incremental;
    retention_days = 7;
    max_backups = 1;
    backup_path = codes "/backup" ++ replicate 249 0;
    schedule_interval = 86400;
  };
  next_id = 1;
}

empty-IsValid : IsValid empty
empty-IsValid = record {
  storage = refl;
  within = omega arith;
  ids = omega arith;
  slots = All-replicate IsSlot 30 blank blank-IsSlot;
  small = omega arith;
}

-- Two backups.
abbrev two : Backups
two = record empty {
  backups = record blank { id = 1 } ∷ record blank { id = 2 } ∷ replicate 28 blank;
  count = 2;
  next_id = 3;
}

two-IsValid : IsValid two
two-IsValid = record {
  storage = refl;
  within = omega arith;
  ids = (omega arith, (omega arith, omega arith));
  slots = (
    record { path_size = refl; description_size = refl },
    (
      record { path_size = refl; description_size = refl },
      All-replicate IsSlot 28 blank blank-IsSlot,
    ),
  );
  small = omega arith;
}

execute-Executed_example : (t : Backups) × (execute 2 two ≡ (pos 0, t)) × Executed 2 two t
execute-Executed_example = execute-Executed 2 two (record blank { id = 2 }) two-IsValid refl

cleanup_old-Trims_example :
    (t : Backups) × (cleanup_old 31 two ≡ some t)
    × Trims 1 (kept two (live two)) (live t)
    × IsValid t
cleanup_old-Trims_example = cleanup_old-Trims two two-IsValid

schedule_check-idle_example : schedule_check two ≡ two
schedule_check-idle_example =
    schedule_check-idle two two-IsValid (λ e. omega arith) (omega arith) (refl, (refl, tt))
