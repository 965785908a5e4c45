-- ===== src/Monitor.antt =====
-- monitoring/monitor.c: the ring of log entries, the metrics, and the statistics that it gathers from
-- the memory, the file system, the scheduler and the network. The static variables of the file are
-- the fields of `Monitor`; the levels of the log are compared by their values.
pub mod Ring
pub mod Logs
pub mod Alerts
pub mod Metrics
pub mod Gather
mod Tests
use homeserver_os.Base.{
  ℕ, zero, suc, ◌+◌, ◌-◌, ◌*◌, ◌%◌, ◌^◌, Bool, true, false, List, [], ◌∷◌, Option, none, some, ◌==◌,
  ltb, leb, if◌then◌else◌, get_elem?, length, map, ◌>>=◌,
}
use homeserver_os.Base.Int.{ℤ, rounds}
use homeserver_os.Base.Text.{codes, copy_text, match_key}
use homeserver_os.Base.Table.{update_at, update_first, find_first, copy_out}
use homeserver_os.Memory as Allocator
use homeserver_os.Filesystem as Disk
use homeserver_os.Scheduler as Tasks
use homeserver_os.Network as Net
use mathlib.Core.Option

-- MAX_LOG_ENTRIES and MAX_METRICS
abbrev pub max_log_entries : ℕ
max_log_entries = 1000

abbrev pub max_metrics : ℕ
max_metrics = 50

-- `log_level_t`
pub data LogLevel : Type 0 where
  debug info warning error critical : LogLevel

-- The values that C gives the levels.
abbrev pub level_value : LogLevel → ℕ
level_value debug = 0
level_value info = 1
level_value warning = 2
level_value error = 3
level_value critical = 4

-- `log_entry_t`
pub record LogEntry : Type 0 where
  pub timestamp : ℕ  -- uint64_t
  pub level : LogLevel
  pub message : List ℕ  -- char[256]
  pub component : List ℕ  -- char[64]

-- `metric_t`
pub record Metric : Type 0 where
  pub name : List ℕ  -- char[64]
  pub value : ℕ  -- uint32_t
  pub timestamp : ℕ  -- uint64_t

-- `system_stats_t`
pub record Stats : Type 0 where
  pub cpu_usage : ℕ  -- uint32_t, as all but the last
  pub memory_usage : ℕ
  pub disk_usage : ℕ
  pub network_rx : ℕ
  pub network_tx : ℕ
  pub active_processes : ℕ
  pub active_connections : ℕ
  pub uptime : ℕ  -- uint64_t

-- The static variables of the file.
pub record Monitor : Type 0 where
  pub log_buffer : List LogEntry  -- [MAX_LOG_ENTRIES]
  pub log_head : ℕ  -- int
  pub log_count : ℕ  -- int
  pub metrics : List Metric  -- [MAX_METRICS]
  pub metric_count : ℕ  -- int
  pub current_stats : Stats
  pub boot_time : ℕ  -- uint64_t

-- The body of the loop of `monitoring_init`
unfoldable pub clear_entry : LogEntry → LogEntry
clear_entry e = record e { timestamp = 0; level = info; message = map (λ c. 0) e.message }

-- `monitoring_init`
unfoldable pub init : Monitor → Monitor
init m = record m {
  log_head = 0;
  log_count = 0;
  metric_count = 0;
  boot_time = 0;
  log_buffer = map clear_entry m.log_buffer;
  current_stats = record {
    cpu_usage = 0;
    memory_usage = 0;
    disk_usage = 0;
    network_rx = 0;
    network_tx = 0;
    active_processes = 0;
    active_connections = 0;
    uptime = 0;
  };
}

-- What `log_message` stores in the entry.
unfoldable pub fill_entry : ℕ → LogLevel → List ℕ → List ℕ → LogEntry → LogEntry
fill_entry now level component message e = record {
  timestamp = now;
  level = level;
  message = copy_text 255 message e.message;
  component = copy_text 63 component e.component;
}

-- `log_message`
unfoldable pub log_message : LogLevel → List ℕ → List ℕ → Monitor → Monitor
log_message level component message m = record m {
  log_buffer =
      update_at m.log_head (fill_entry m.current_stats.uptime level component message) m.log_buffer;
  log_head = (m.log_head + 1) % max_log_entries;
  log_count = if ltb m.log_count max_log_entries then m.log_count + 1 else m.log_count;
}

-- `level >= min_level`
abbrev pub at_level : LogLevel → LogEntry → Bool
at_level min_level e = leb (level_value min_level) (level_value e.level)

-- The loop of `get_logs`, at index `i` with `r` rounds left and room for `room` entries: the entries
-- that it stores, in their order. The index is in range of the array.
unfoldable pub collect : ℕ → ℕ → ℕ → ℕ → LogLevel → List LogEntry → List LogEntry
collect zero i start room min_level buffer = []
collect (suc r) i start zero min_level buffer = []
collect (suc r) i start (suc room) min_level buffer =
    elim (get_elem? buffer ((start + i) % max_log_entries)) [
      | none ↦ []
      | some e ↦ elim (at_level min_level e) [
        | true ↦ e ∷ collect r (suc i) start room min_level buffer
        | false ↦ collect r (suc i) start (suc room) min_level buffer
      ]
    ]

-- `get_logs`: the number of entries, and the caller's buffer.
unfoldable pub get_logs : List LogEntry → ℤ → LogLevel → Monitor → ℕ × List LogEntry
get_logs out max_entries min_level m =
    let start = (m.log_head + max_log_entries - m.log_count) % max_log_entries in
    let entries = collect m.log_count 0 start (rounds max_entries) min_level m.log_buffer in
    (length entries, copy_out (length entries) entries out)

-- The test of the loops over the metrics: the name starts with the bytes of `name`.
abbrev pub is_named : List ℕ → Metric → Bool
is_named name x = match_key 64 x.name name

-- `metrics[i].value = value; metrics[i].timestamp = current_stats.uptime;`
unfoldable pub set_value : ℕ → ℕ → Metric → Metric
set_value value now x = record x { value = value; timestamp = now }

-- What `record_metric` stores in a new entry.
unfoldable pub fill_metric : List ℕ → ℕ → ℕ → Metric → Metric
fill_metric name value now x = record {
  name = copy_text 63 name x.name;
  value = value;
  timestamp = now;
}

-- `record_metric` behind its loop, which found the name or did not.
unfoldable pub stored : List ℕ → ℕ → Monitor → Option (List Metric) → Monitor
stored name value m (some metrics) = record m { metrics = metrics }
stored name value m none =
    if ltb m.metric_count max_metrics
    then record m {
      metrics = update_at m.metric_count (fill_metric name value m.current_stats.uptime) m.metrics;
      metric_count = m.metric_count + 1;
    }
    else m

-- `record_metric`
unfoldable pub record_metric : List ℕ → ℕ → Monitor → Monitor
record_metric name value m = stored name value m (
    update_first (is_named name) (λ x. some (set_value value m.current_stats.uptime x))
      m.metric_count m.metrics)

-- The value that `get_metric` returns.
abbrev pub value_or_zero : Option Metric → ℕ
value_or_zero none = 0
value_or_zero (some x) = x.value

-- `get_metric`
unfoldable pub get_metric : List ℕ → Monitor → ℕ
get_metric name m = value_or_zero (find_first (is_named name) m.metric_count m.metrics)

-- The assignments to `current_stats` of `update_system_stats`, with what the calls return.
unfoldable pub gather : ℕ → ℕ → ℕ → ℕ → Stats → Stats
gather memory disk tasks connections s = record {
  cpu_usage = 15;
  memory_usage = memory;
  disk_usage = disk;
  network_rx = (s.network_rx + 1024) % 2 ^ 32;
  network_tx = (s.network_tx + 512) % 2 ^ 32;
  active_processes = tasks;
  active_connections = connections;
  uptime = (s.uptime + 1) % 2 ^ 64;
}

-- The calls of `record_metric` at the end of `update_system_stats`
unfoldable pub record_all : Monitor → Monitor
record_all m = record_metric (codes "network_tx") m.current_stats.network_tx (
    record_metric (codes "network_rx") m.current_stats.network_rx (
      record_metric (codes "disk_usage") m.current_stats.disk_usage (
        record_metric (codes "memory_usage") m.current_stats.memory_usage
          (record_metric (codes "cpu_usage") m.current_stats.cpu_usage m))))

-- What the functions of the other parts are called on.
pub record Machine : Type 0 where
  pub memory : Allocator.Memory
  pub disk : Disk.Filesystem
  pub tasks : Tasks.Scheduler
  pub network : Net.Network

-- `update_system_stats`; the fuel is that of the walk over the tasks.
unfoldable pub update_system_stats : ℕ → Machine → Monitor → Option Monitor
update_system_stats fuel x m = do
  tasks ← Tasks.get_task_count fuel x.tasks
  let stats =
      gather (Allocator.get_memory_usage x.memory) (Disk.get_used_space x.disk) tasks
        (Net.get_active_connections x.network) m.current_stats
  some (record_all (record m { current_stats = stats }))

-- `get_system_stats`, `get_log_count` and `get_metric_count`
unfoldable pub get_system_stats : Monitor → Stats
get_system_stats m = m.current_stats

unfoldable pub get_log_count : Monitor → ℕ
get_log_count m = m.log_count

unfoldable pub get_metric_count : Monitor → ℕ
get_metric_count m = m.metric_count

-- `usage > limit * 0.9`. The product is a floating-point number; of integers below 2^32 the test has
-- the outcome that it has of real numbers.
abbrev pub above_nine_tenths : ℕ → ℕ → Bool
above_nine_tenths usage limit = ltb (9 * limit) (10 * usage)

-- `if (test) log_message(LOG_WARNING, "Monitor", text);`
unfoldable pub warn_if : Bool → List ℕ → Monitor → Monitor
warn_if true message m = log_message warning (codes "Monitor") message m
warn_if false message m = m

-- The tests of `check_alerts`
abbrev pub cpu_high : Stats → Bool
cpu_high s = ltb 90 s.cpu_usage

abbrev pub memory_low : Machine → Stats → Bool
memory_low x s = above_nine_tenths s.memory_usage (Allocator.get_free_memory x.memory)

abbrev pub disk_low : Machine → Stats → Bool
disk_low x s = above_nine_tenths s.disk_usage (Disk.get_free_space x.disk)

-- `check_alerts`
unfoldable pub check_alerts : Machine → Monitor → Monitor
check_alerts x m =
    let m1 = warn_if (cpu_high m.current_stats) (codes "High CPU usage detected") m in
    let m2 = warn_if (memory_low x m1.current_stats) (codes "Low memory available") m1 in
    warn_if (disk_low x m2.current_stats) (codes "Low disk space") m2
