-- ===== src/Monitor/Tests.antt =====
-- Runs of monitoring/monitor.c on small inputs.
use homeserver_os.Base.{
  ◌*◌, ◌≡◌, inl, refl, List, [], ◌∷◌, ◌++◌, arith, replicate, some, length-replicate,
}
use homeserver_os.Base.Text.{codes}
use homeserver_os.Base.Table.Slots.{All-replicate}
use homeserver_os.Memory as Allocator
use homeserver_os.Filesystem as Disk
use homeserver_os.Network as Net
use homeserver_os.Scheduler as Tasks
use homeserver_os.Scheduler.Round as Round
use homeserver_os.Monitor.{
  Monitor, Machine, LogEntry, Metric, info, error, max_log_entries, check_alerts, record_metric,
  update_system_stats,
}
use homeserver_os.Monitor.Ring.{keep, Holds, IsEntry}
use homeserver_os.Monitor.Alerts.{log_all, Logged, log_all-Holds, Warned, check_alerts-Holds}
use homeserver_os.Monitor.Metrics.{IsMetrics, HasName, Recorded, record_metric-Recorded}
use homeserver_os.Monitor.Gather.{IsShown, update_system_stats-IsShown}

abbrev entry : LogEntry
entry = record {
  timestamp = 0;
  level = info;
  message = replicate 256 0;
  component = replicate 64 0;
}

abbrev metric : Metric
metric = record { name = replicate 64 0; value = 0; timestamp = 0 }

-- A processor that is busy, and no entry.
abbrev empty : Monitor
empty = record {
  log_buffer = replicate 1000 entry;
  log_head = 0;
  log_count = 0;
  metrics = replicate 50 metric;
  metric_count = 0;
  current_stats = record {
    cpu_usage = 95;
    memory_usage = 0;
    disk_usage = 0;
    network_rx = 0;
    network_tx = 0;
    active_processes = 0;
    active_connections = 0;
    uptime = 7;
  };
  boot_time = 0;
}

empty-Holds : Holds empty []
empty-Holds = record {
  storage = length-replicate 1000 entry;
  entries =
      All-replicate IsEntry 1000 entry (record { message_size = refl; component_size = refl });
  head = omega arith;
  count = refl;
  bound = omega arith;
  slots = λ i lt. absurd (omega arith);
}

empty-IsMetrics : IsMetrics empty
empty-IsMetrics = record {
  storage = refl;
  within = omega arith;
  names = All-replicate HasName 50 metric refl;
}

abbrev task : Tasks.Task
task = record {
  id = 0;
  name = replicate 32 0;
  state = Tasks.ready;
  priority = 0;
  time_slice = 0;
  regs = record {
    eax = 0;
    ebx = 0;
    ecx = 0;
    edx = 0;
    esi = 0;
    edi = 0;
    ebp = 0;
    eip = 0;
    esp = 0;
    eflags = 0;
  };
  stack = replicate 4096 0;
  next = 0;
}

abbrev inode : Disk.Inode
inode = record {
  name = replicate 256 0;
  type = Disk.regular;
  size = 0;
  blocks = replicate 128 0;
  block_count = 0;
  permissions = 0;
  owner_id = 0;
  group_id = 0;
  created_time = 0;
  modified_time = 0;
  accessed_time = 0;
}

-- A machine with one task, and 64 frames of memory.
abbrev machine : Machine
machine = record {
  memory = Allocator.init 262144;
  disk = record {
    superblock = record {
      magic = 0;
      version = 1;
      block_size = 4096;
      total_blocks = 100;
      free_blocks = 60;
      total_inodes = 8;
      free_inodes = 8;
      root_inode = 0;
    };
    inodes = replicate 8 inode;
    block_bitmap = replicate 13 0;
    inode_bitmap = replicate 1 0;
  };
  tasks = record { cell = λ p. task; task_list = 4096; current_task = 0; next_task_id = 2 };
  network = record {
    connections = [];
    local_ip = record { octet = replicate 4 0 };
    local_mac = record { octet = replicate 6 0 };
  };
}

machine-IsValid : Round.IsValid (4096 ∷ []) machine.tasks
machine-IsValid = record {
  chain = (refl, (λ e. omega arith), refl);
  distinct = (tt, tt);
  current = inl refl;
  one_running = ((λ e. absurd (cc)), tt);
}

log_all-Holds_example :
    (news : List LogEntry) × Logged
      (record { level = error; component = codes "fs"; message = codes "full" } ∷ [])
      empty
      news
    × Holds
        (log_all
          (record { level = error; component = codes "fs"; message = codes "full" } ∷ [])
          empty)
        (keep max_log_entries ([] ++ news))
log_all-Holds_example =
    log_all-Holds (record { level = error; component = codes "fs"; message = codes "full" } ∷ [])
      empty [] empty-Holds

check_alerts-Holds_example :
    (a b c : List LogEntry) × Warned 90 95 (codes "High CPU usage detected") 7 a
    × Warned (9 * Allocator.get_free_memory machine.memory) 0 (codes "Low memory available") 7 b
    × Warned (9 * Disk.get_free_space machine.disk) 0 (codes "Low disk space") 7 c
    × Holds (check_alerts machine empty) (keep max_log_entries ([] ++ a ++ b ++ c))
check_alerts-Holds_example = check_alerts-Holds machine empty [] empty-Holds

record_metric-Recorded_example :
    Recorded (codes "load") 3 empty (record_metric (codes "load") 3 empty)
record_metric-Recorded_example =
    record_metric-Recorded (codes "load") 3 empty empty-IsMetrics (omega arith) (inl (omega arith))

update_system_stats-IsShown_example :
    (t : Monitor) × (update_system_stats 2 machine empty ≡ some t)
    × IsShown
        (record {
          cpu_usage = 15;
          memory_usage = Allocator.get_memory_usage machine.memory;
          disk_usage = Disk.get_used_space machine.disk;
          network_rx = 1024;
          network_tx = 512;
          active_processes = 1;
          active_connections = Net.get_active_connections machine.network;
          uptime = 8;
        })
        t
update_system_stats-IsShown_example =
    update_system_stats-IsShown 2 (4096 ∷ []) machine empty machine-IsValid (omega arith)
      (omega arith) empty-IsMetrics (omega arith)
