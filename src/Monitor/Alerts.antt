-- ===== src/Monitor/Alerts.antt =====
-- Several entries in a row: the history of the log of monitoring/monitor.c, and `check_alerts`.
use homeserver_os.Base.{
  ℕ, zero, suc, ◌+◌, ◌-◌, ◌*◌, ◌<◌, ◌≤◌, ◌⊎◌, inl, inr, ltb, Bool-cases, ◌≡◌, refl, sym, ap, ◌∙◌,
  Bool, true, false, List, [], ◌∷◌, ◌++◌, arith, length, length-append, length-drop, drop,
}
use homeserver_os.Base.Text.{codes}
use mathlib.Core.Path.{subst}
use mathlib.Core.List.{append_assoc, append-nil}
use homeserver_os.Memory.{get_free_memory}
use homeserver_os.Filesystem.{get_free_space}
use homeserver_os.Monitor.{
  Monitor, Machine, LogEntry, LogLevel, warning, max_log_entries, log_message, warn_if, cpu_high,
  memory_low, disk_low, check_alerts,
}
use homeserver_os.Monitor.Ring.{keep, Holds, IsLogged}
use homeserver_os.Monitor.Logs.{log_message-Holds}

module _ {ℓ} {A : Type ℓ} where
  drop-append : (k : ℕ) (xs ys : List A) → k ≤ length xs → drop k (xs ++ ys) ≡ drop k xs ++ ys
  drop-append zero xs ys h = refl
  drop-append (suc k) [] ys h = absurd (omega arith)
  drop-append (suc k) (x ∷ xs) ys h = drop-append k xs ys (omega arith)

  drop-nil : (k : ℕ) → drop {A = A} k [] ≡ []
  drop-nil zero = refl
  drop-nil (suc k) = refl

  drop-drop : (a b : ℕ) (xs : List A) → drop a (drop b xs) ≡ drop (b + a) xs
  drop-drop a zero xs = let e : zero + a ≡ a = omega arith in rw e refl
  drop-drop a (suc b) [] = drop-nil a ∙ sym (drop-nil (suc b + a))
  drop-drop a (suc b) (x ∷ xs) =
      let e : suc b + a ≡ suc (b + a) = omega arith in rw e (drop-drop a b xs)

  keep-append : (n : ℕ) (xs ys : List A) → keep n (keep n xs ++ ys) ≡ keep n (xs ++ ys)
  keep-append n xs ys =
      let a : ℕ = length xs - n in
      let joined : drop a xs ++ ys ≡ drop a (xs ++ ys) = sym (drop-append a xs ys (omega arith)) in
      let size : a + (length (drop a (xs ++ ys)) - n) ≡ length (xs ++ ys) - n =
        omega (arith, length-drop a (xs ++ ys), length-append xs ys) in
      rw joined
        (drop-drop (length (drop a (xs ++ ys)) - n) a (xs ++ ys) ∙ ap (λ k. drop k (xs ++ ys)) size)

  keep_few : (n : ℕ) (xs : List A) → length xs ≤ n → keep n xs ≡ xs
  keep_few n xs h = let e : length xs - n ≡ 0 = omega arith in rw e refl

-- One call of `log_message`
pub record Call : Type 0 where
  pub level : LogLevel
  pub component : List ℕ
  pub message : List ℕ

abbrev pub log_all : List Call → Monitor → Monitor
log_all [] m = m
log_all (c ∷ calls) m = log_all calls (log_message c.level c.component c.message m)

-- The entries of these calls, in their order.
abbrev pub Logged : List Call → Monitor → List LogEntry → Type 0
Logged [] m es = es ≡ []
Logged (c ∷ calls) m es =
    (e : LogEntry) × (rest : List LogEntry) × (es ≡ e ∷ rest)
    × IsLogged c.level c.component c.message m.current_stats.uptime e
    × Logged calls (log_message c.level c.component c.message m) rest

-- After any number of calls the ring holds the last 1000 of all entries, those that it held first and
-- one for each call.
pub log_all-Holds :
    (calls : List Call) (m : Monitor) (es : List LogEntry)
    → Holds m es
    → (news : List LogEntry) × Logged calls m news
      × Holds (log_all calls m) (keep max_log_entries (es ++ news))
log_all-Holds [] m es h = (
  [],
  refl,
  rw (append-nil es) (rw (keep_few max_log_entries es (omega (arith, h.count, h.bound))) h),
)
log_all-Holds (c ∷ calls) m es h =
    let (e, new, h') = log_message-Holds c.level c.component c.message m es h in
    let m' = log_message c.level c.component c.message m in
    let (rest, logged, h'') = log_all-Holds calls m' (keep max_log_entries (es ++ e ∷ [])) h' in
    (
      e ∷ rest,
      (e, rest, refl, new, logged),
      subst (Holds (log_all calls m'))
          (keep-append max_log_entries (es ++ e ∷ []) rest
            ∙ ap (keep max_log_entries) (append_assoc es (e ∷ []) rest))
          h'',
    )

-- The entries of a warning that is logged if its test holds.
abbrev WarnedIf : Bool → List ℕ → ℕ → List LogEntry → Type 0
WarnedIf true message now es =
    (e : LogEntry) × (es ≡ e ∷ []) × IsLogged warning (codes "Monitor") message now e
WarnedIf false message now es = es ≡ []

-- One warning, where the usage is above the limit, and no entry where it is not
abbrev pub Warned : (limit usage : ℕ) (message : List ℕ) (now : ℕ) → List LogEntry → Type 0
Warned limit usage message now es =
    ((limit < usage)
      × (e : LogEntry) × (es ≡ e ∷ [])
      × IsLogged warning (codes "Monitor") message now e)
    ⊎ ((usage ≤ limit) × (es ≡ []))

WarnedIf-ltb :
    (limit usage : ℕ) (message : List ℕ) (now : ℕ) (es : List LogEntry)
    → WarnedIf (ltb limit usage) message now es
    → Warned limit usage message now es
WarnedIf-ltb limit usage message now es h = elim (Bool-cases (ltb limit usage)) [
  | inl e ↦ let (entry, only, logged) = rw e at h in inl (ground arith, entry, only, logged)
  | inr e ↦ inr (ground arith, rw e at h)
]

warn_if-Holds :
    (test : Bool) (message : List ℕ) (m : Monitor) (es : List LogEntry)
    → Holds m es
    → (news : List LogEntry) × WarnedIf test message m.current_stats.uptime news
      × Holds (warn_if test message m) (keep max_log_entries (es ++ news))
      × ((warn_if test message m).current_stats ≡ m.current_stats)
unfolding warn_if
warn_if-Holds true message m es h =
    let (e, new, h') = log_message-Holds warning (codes "Monitor") message m es h in
    (e ∷ [], (e, refl, new), h', unfold log_message in refl)
warn_if-Holds false message m es h = (
  [],
  refl,
  rw (append-nil es) (rw (keep_few max_log_entries es (omega (arith, h.count, h.bound))) h),
  refl,
)

-- `check_alerts` logs, in this order, one warning where the CPU is above 90 percent, one where the
-- memory in use is more than nine tenths of the free memory, and one where the disk space in use is
-- more than nine tenths of the free space, and nothing else; the ring keeps the last 1000 entries.
pub check_alerts-Holds :
    (x : Machine) (m : Monitor) (es : List LogEntry)
    → Holds m es
    → (a b c : List LogEntry) × Warned 90 m.current_stats.cpu_usage
        (codes "High CPU usage detected")
        m.current_stats.uptime
        a
      × Warned
          (9 * get_free_memory x.memory)
          (10 * m.current_stats.memory_usage)
          (codes "Low memory available")
          m.current_stats.uptime
          b
      × Warned
          (9 * get_free_space x.disk)
          (10 * m.current_stats.disk_usage)
          (codes "Low disk space")
          m.current_stats.uptime
          c
      × Holds (check_alerts x m) (keep max_log_entries (es ++ a ++ b ++ c))
unfolding check_alerts
check_alerts-Holds x m es h =
    let n = max_log_entries in
    let u = m.current_stats in
    let (a, wa, ha, sa) =
      warn_if-Holds (cpu_high m.current_stats) (codes "High CPU usage detected") m es h in
    let m1 = warn_if (cpu_high m.current_stats) (codes "High CPU usage detected") m in
    let (b, wb, hb, sb) =
      warn_if-Holds (memory_low x m1.current_stats) (codes "Low memory available") m1
        (keep n (es ++ a)) ha in
    let m2 = warn_if (memory_low x m1.current_stats) (codes "Low memory available") m1 in
    let (c, wc, hc, sc) =
      warn_if-Holds (disk_low x m2.current_stats) (codes "Low disk space") m2
        (keep n (keep n (es ++ a) ++ b)) hb in
    let joined : keep n (keep n (keep n (es ++ a) ++ b) ++ c) ≡ keep n (((es ++ a) ++ b) ++ c) =
      keep-append n (keep n (es ++ a) ++ b) c
      ∙ ap (keep n) (append_assoc (keep n (es ++ a)) b c)
      ∙ keep-append n (es ++ a) (b ++ c)
      ∙ ap (keep n) (sym (append_assoc (es ++ a) b c)) in
    (
      a,
      b,
      c,
      WarnedIf-ltb 90 u.cpu_usage (codes "High CPU usage detected") u.uptime a wa,
      WarnedIf-ltb (9 * get_free_memory x.memory) (10 * u.memory_usage)
          (codes "Low memory available") u.uptime b
          (subst (λ s. WarnedIf (memory_low x s) (codes "Low memory available") s.uptime b) sa wb),
      WarnedIf-ltb (9 * get_free_space x.disk) (10 * u.disk_usage) (codes "Low disk space") u.uptime
          c (subst (λ s. WarnedIf (disk_low x s) (codes "Low disk space") s.uptime c) (sb ∙ sa) wc),
      subst (Holds (check_alerts x m)) joined hc,
    )
