-- ===== src/Backup.antt =====
-- backup/backup.c: the table of backups and its policy. The static variables of the file are the
-- fields of `Backups`. The source keeps no clock: the current time is 0 wherever it asks for it.
pub mod Records
pub mod Expire
pub mod Cleanup
pub mod Schedule
mod Tests
use homeserver_os.Base.{
  ℕ, zero, suc, ◌+◌, ◌-◌, ◌*◌, ◌%◌, ◌^◌, Bool, true, false, not, List, [], ◌∷◌, ◌++◌, Option, none,
  some, ◌==◌, ltb, leb, if◌then◌else◌, get_elem?, replicate, ◌>>=◌,
}
use homeserver_os.Base.Int.{ℤ, pos, minus_one, rounds, min_int}
use homeserver_os.Base.Text.{codes, copy_text}
use homeserver_os.Base.Table.{update_at, update_first, find_first, remove_first, copy_out}
use homeserver_os.Base.Table.Ids.{has_id}

-- MAX_BACKUPS and MAX_PATH_LENGTH
abbrev pub max_backups_size : ℕ
max_backups_size = 30

abbrev pub max_path_length : ℕ
max_path_length = 256

-- `backup_type_t`
pub data BackupType : Type 0 where
  full incremental differential : BackupType

-- `backup_status_t`
pub data BackupStatus : Type 0 where
  pending in_progress completed failed : BackupStatus

-- The values that C gives the states, which it compares.
abbrev pub status_value : BackupStatus → ℕ
status_value pending = 0
status_value in_progress = 1
status_value completed = 2
status_value failed = 3

-- `backup_t`
pub record Backup : Type 0 where
  pub id : ℕ  -- uint32_t
  pub type : BackupType
  pub status : BackupStatus
  pub path : List ℕ  -- char[MAX_PATH_LENGTH]
  pub timestamp : ℕ  -- uint64_t
  pub size : ℕ  -- uint64_t
  pub file_count : ℕ  -- uint32_t
  pub description : List ℕ  -- char[128]

-- `backup_config_t`
pub record Config : Type 0 where
  pub enabled : ℕ  -- int
  pub default_type : BackupType
  pub retention_days : ℕ  -- uint32_t
  pub max_backups : ℕ  -- uint32_t
  pub backup_path : List ℕ  -- char[MAX_PATH_LENGTH]
  pub schedule_interval : ℕ  -- uint32_t

-- The static variables of the file.
pub record Backups : Type 0 where
  pub backups : List Backup  -- [MAX_BACKUPS]
  pub count : ℕ  -- int
  pub config : Config
  pub next_id : ℕ  -- uint32_t

abbrev pub backup_id : Backup → ℕ
backup_id b = b.id

-- `backup_init`
unfoldable pub init : Backups → Backups
init s = record s {
  count = 0;
  next_id = 1;
  config = record {
    enabled = 1;
    default_type = incremental;
    retention_days = 7;
    max_backups = 30;
    schedule_interval = 86400;
    backup_path = codes "/backup" ++ replicate 249 0;
  };
}

-- What `backup_create` stores in the entry. Of a `backup_path` with no NUL it writes one NUL behind
-- `path`, in the padding there or in the first byte of `timestamp`, which is 0 already.
unfoldable pub fill_backup : ℕ → BackupType → List ℕ → List ℕ → Backup → Backup
fill_backup id type description backup_path b = record {
  id = id;
  type = type;
  status = pending;
  timestamp = 0;
  size = 0;
  file_count = 0;
  description = copy_text 127 description b.description;
  path = copy_text max_path_length backup_path b.path;
}

-- `backup_create`
unfoldable pub create : BackupType → List ℕ → Backups → ℕ × Backups
create type description s = if leb max_backups_size s.count then (0, s) else (
  s.next_id,
  record s {
    backups =
        update_at s.count (fill_backup s.next_id type description s.config.backup_path) s.backups;
    count = s.count + 1;
    next_id = (s.next_id + 1) % 2 ^ 32;
  },
)

-- What `backup_execute` leaves in the entry: IN_PROGRESS is overwritten at once.
unfoldable pub run_backup : Backup → Backup
run_backup b = record b { file_count = 1000; size = 1024 * 1024 * 500; status = completed }

-- The return of -1 behind a search that finds nothing, and of 0 with the table written.
unfoldable pub answer : Backups → Option (List Backup) → ℤ × Backups
answer s none = (minus_one, s)
answer s (some backups) = (pos 0, record s { backups = backups })

-- `backup_execute`
unfoldable pub execute : ℕ → Backups → ℤ × Backups
execute id s =
    answer s (update_first (has_id backup_id id) (λ b. some (run_backup b)) s.count s.backups)

-- The two tests of `backup_restore`
unfoldable pub may_restore : Option Backup → ℤ
may_restore none = minus_one
may_restore (some b) = if not (status_value b.status == 2) then minus_one else pos 0

-- `backup_restore`, which restores nothing: its result
unfoldable pub restore : ℕ → List ℕ → Backups → ℤ
restore id restore_path s = may_restore (find_first (has_id backup_id id) s.count s.backups)

-- The two ways out of the loop of `backup_delete`
unfoldable pub removed : Backups → Option (List Backup) → ℤ × Backups
removed s none = (minus_one, s)
removed s (some backups) = (pos 0, record s { backups = backups; count = s.count - 1 })

-- `backup_delete`
unfoldable pub delete : ℕ → Backups → ℤ × Backups
delete id s = removed s (remove_first (has_id backup_id id) s.count s.backups)

-- `current_time - timestamp`, at the time 0
abbrev pub age : Backup → ℕ
age b = (2 ^ 64 - b.timestamp) % 2 ^ 64

-- `config.retention_days * 86400`, a product of 32 bits
abbrev pub retention_seconds : Backups → ℕ
retention_seconds s = s.config.retention_days * 86400 % 2 ^ 32

abbrev pub is_expired : Backups → Backup → Bool
is_expired s b = ltb (retention_seconds s) (age b)

-- The first loop of `backup_cleanup_old`, from `i` on; the policy is the one of `c`. After a deletion
-- the index stays. `none` means that the fuel ran out.
unfoldable pub expire : ℕ → Backups → ℕ → Backups → Option Backups
expire zero c i s = none
expire (suc fuel) c i s = elim (ltb i s.count) [
  | false ↦ some s
  | true ↦ elim (get_elem? s.backups i) [
    | none ↦ some s
    | some b ↦ elim (is_expired c b) [
      | true ↦ expire fuel c i (delete b.id s).1
      | false ↦ expire fuel c (suc i) s
    ]
  ]
]

-- `for (i = 1; i < n; i++) if (backups[i].timestamp < oldest_time) …`, at the rest of the array
unfoldable pub oldest_of : ℕ → Backup → List Backup → Backup
oldest_of zero oldest bs = oldest
oldest_of (suc n) oldest [] = oldest
oldest_of (suc n) oldest (b ∷ bs) =
    oldest_of n (if ltb b.timestamp oldest.timestamp then b else oldest) bs

-- The id that a round of the second loop of `backup_cleanup_old` deletes.
unfoldable pub oldest_id : Backups → List Backup → ℕ
oldest_id s [] = 0
oldest_id s (b ∷ bs) = (oldest_of (s.count - 1) b bs).id

-- The second loop of `backup_cleanup_old`; `none` means that the fuel ran out.
unfoldable pub trim : ℕ → Backups → Option Backups
trim zero s = none
trim (suc fuel) s = elim (ltb s.config.max_backups s.count) [
  | false ↦ some s
  | true ↦ trim fuel (delete (oldest_id s s.backups) s).1
]

-- `backup_cleanup_old`
unfoldable pub cleanup_old : ℕ → Backups → Option Backups
cleanup_old fuel s = do kept ← expire fuel s 0 s; trim fuel kept

-- `backup_get_list`: the result, and the caller's buffer.
unfoldable pub get_list : List Backup → ℤ → Backups → ℤ × List Backup
get_list out max_count s =
    let count = min_int s.count max_count in (count, copy_out (rounds count) s.backups out)

-- The loop of `backup_get_latest`, at the rest of the array
unfoldable pub latest_of : ℕ → Backup → List Backup → Backup
latest_of zero latest bs = latest
latest_of (suc n) latest [] = latest
latest_of (suc n) latest (b ∷ bs) =
    latest_of n (if ltb latest.timestamp b.timestamp then b else latest) bs

unfoldable pub latest_in : ℕ → List Backup → Option Backup
latest_in n [] = none
latest_in n (b ∷ bs) = if n == 0 then none else some (latest_of (n - 1) b bs)

-- `backup_get_latest`
unfoldable pub get_latest : Backups → Option Backup
get_latest s = latest_in s.count s.backups

-- `backup_set_config`, `backup_get_config` and `backup_get_count`
unfoldable pub set_config : Config → Backups → Backups
set_config config s = record s { config = config }

unfoldable pub get_config : Backups → Config
get_config s = s.config

unfoldable pub get_count : Backups → ℕ
get_count s = s.count

-- The loop of `backup_get_total_size`
unfoldable pub add_sizes : ℕ → ℕ → List Backup → ℕ
add_sizes total zero bs = total
add_sizes total (suc n) [] = total
add_sizes total (suc n) (b ∷ bs) = add_sizes ((total + b.size) % 2 ^ 64) n bs

-- `backup_get_total_size`
unfoldable pub get_total_size : Backups → ℕ
get_total_size s = add_sizes 0 s.count s.backups

-- `!latest || current_time - latest->timestamp > config.schedule_interval`
unfoldable pub is_due : ℕ → Option Backup → Bool
is_due interval none = true
is_due interval (some b) = ltb interval (age b)

-- The creation and the run of a scheduled backup
unfoldable pub run_scheduled : ℕ × Backups → Backups
run_scheduled (id, s) = if ltb 0 id then (execute id s).1 else s

-- `backup_schedule_check`
unfoldable pub schedule_check : Backups → Backups
schedule_check s =
    if s.config.enabled == 0
    then s
    else (if is_due s.config.schedule_interval (get_latest s)
        then run_scheduled (create s.config.default_type (codes "Scheduled backup") s)
        else s)
