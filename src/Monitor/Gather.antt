-- ===== src/Monitor/Gather.antt =====
-- `update_system_stats` of monitoring/monitor.c: what it gathers from the other parts, and where.
use homeserver_os.Base.{ℕ, ◌+◌, ◌%◌, ◌^◌, ◌<◌, ◌≤◌, ◌≡◌, inl, refl, ◌∙◌, List, some, arith, length}
use homeserver_os.Base.Text.{codes}
use homeserver_os.Memory as Allocator
use homeserver_os.Filesystem as Disk
use homeserver_os.Network as Net
use homeserver_os.Scheduler.Chain.{alive}
use homeserver_os.Scheduler.Round as Tasks
use homeserver_os.Scheduler.Reach.{get_task_count-alive}
use homeserver_os.Monitor.{
  Monitor, Machine, Stats, gather, record_metric, get_metric, record_all, update_system_stats,
}
use homeserver_os.Monitor.Metrics.{IsMetrics, record_metric-Recorded}

-- The metrics show the values of the statistics.
pub record IsShown (s : Stats) (t : Monitor) : Type 0 where
  pub cpu : get_metric (codes "cpu_usage") t ≡ s.cpu_usage
  pub memory : get_metric (codes "memory_usage") t ≡ s.memory_usage
  pub disk : get_metric (codes "disk_usage") t ≡ s.disk_usage
  pub received : get_metric (codes "network_rx") t ≡ s.network_rx
  pub sent : get_metric (codes "network_tx") t ≡ s.network_tx
  pub stats : t.current_stats ≡ s
  pub few : t.metric_count ≤ 50
  pub valid : IsMetrics t

record_all-IsShown :
    (m : Monitor) → IsMetrics m → m.metric_count + 5 ≤ 50 → IsShown m.current_stats (record_all m)
unfolding record_all
record_all-IsShown m v room =
    let s = m.current_stats in
    let r1 =
      record_metric-Recorded (codes "cpu_usage") s.cpu_usage m v (omega arith)
        (inl (omega arith)) in
    let m1 = record_metric (codes "cpu_usage") s.cpu_usage m in
    let r2 =
      record_metric-Recorded (codes "memory_usage") s.memory_usage m1 r1.valid (omega arith)
        (inl (omega (arith, r1.at_most_one))) in
    let m2 = record_metric (codes "memory_usage") s.memory_usage m1 in
    let r3 =
      record_metric-Recorded (codes "disk_usage") s.disk_usage m2 r2.valid (omega arith)
        (inl (omega (arith, r1.at_most_one, r2.at_most_one))) in
    let m3 = record_metric (codes "disk_usage") s.disk_usage m2 in
    let r4 =
      record_metric-Recorded (codes "network_rx") s.network_rx m3 r3.valid (omega arith)
        (inl (omega (arith, r1.at_most_one, r2.at_most_one, r3.at_most_one))) in
    let m4 = record_metric (codes "network_rx") s.network_rx m3 in
    let r5 =
      record_metric-Recorded (codes "network_tx") s.network_tx m4 r4.valid (omega arith)
        (inl (omega (arith, r1.at_most_one, r2.at_most_one, r3.at_most_one, r4.at_most_one))) in
    record {
      cpu =
          r5.others (codes "cpu_usage") refl
          ∙ r4.others (codes "cpu_usage") refl
          ∙ r3.others (codes "cpu_usage") refl
          ∙ r2.others (codes "cpu_usage") refl
          ∙ r1.got;
      memory =
          r5.others (codes "memory_usage") refl
          ∙ r4.others (codes "memory_usage") refl
          ∙ r3.others (codes "memory_usage") refl
          ∙ r2.got;
      disk = r5.others (codes "disk_usage") refl ∙ r4.others (codes "disk_usage") refl ∙ r3.got;
      received = r5.others (codes "network_rx") refl ∙ r4.got;
      sent = r5.got;
      stats = r5.same_stats ∙ r4.same_stats ∙ r3.same_stats ∙ r2.same_stats ∙ r1.same_stats;
      few = r5.valid.within;
      valid = r5.valid;
    }

-- `update_system_stats`, with fuel for the tasks and five free entries for metrics, returns. The
-- statistics are those of the allocator, the file system, the list of tasks and the connections, with
-- one tick more of uptime, and `get_metric` gives the five that are recorded.
pub update_system_stats-IsShown :
    (fuel : ℕ) (tasks : List ℕ) (x : Machine) (m : Monitor)
    → Tasks.IsValid tasks x.tasks
    → length tasks < fuel
    → length tasks < 2 ^ 32
    → IsMetrics m
    → m.metric_count + 5 ≤ 50
    → (t : Monitor) × (update_system_stats fuel x m ≡ some t)
      × IsShown
          (record {
            cpu_usage = 15;
            memory_usage = Allocator.get_memory_usage x.memory;
            disk_usage = Disk.get_used_space x.disk;
            network_rx = (m.current_stats.network_rx + 1024) % 2 ^ 32;
            network_tx = (m.current_stats.network_tx + 512) % 2 ^ 32;
            active_processes = alive x.tasks.cell tasks;
            active_connections = Net.get_active_connections x.network;
            uptime = (m.current_stats.uptime + 1) % 2 ^ 64;
          })
          t
unfolding update_system_stats gather
update_system_stats-IsShown fuel tasks x m w lt small v room =
    let stats =
      gather (Allocator.get_memory_usage x.memory) (Disk.get_used_space x.disk)
        (alive x.tasks.cell tasks) (Net.get_active_connections x.network) m.current_stats in
    let m' : Monitor = record m { current_stats = stats } in
    let v' : IsMetrics m' = record { storage = v.storage; within = v.within; names = v.names } in
    (
      record_all m',
      rw (get_task_count-alive fuel tasks x.tasks w lt small) refl,
      record_all-IsShown m' v' room,
    )
