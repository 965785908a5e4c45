-- ===== src/Monitor/Logs.antt =====
-- `log_message`, `get_logs` and `check_alerts` of monitoring/monitor.c, on the list of the entries.
use homeserver_os.Base.{
  ℕ, zero, suc, ◌-◌, ◌<◌, ◌≡◌, refl, ◌∙◌, true, List, [], ◌∷◌, ◌++◌, some, arith, ltb, length,
  length-append, get_elem?, if◌then◌else◌,
}
use homeserver_os.Base.Text.{text-copy_text, length-copy_text}
use homeserver_os.Base.Table.Slots.{All-get_elem?, All-update_at, length-update_at, get_elem?-some}
use native.Mathlib.Decide.{dec_lt}
use homeserver_os.Monitor.{
  Monitor, LogEntry, LogLevel, max_log_entries, log_message, fill_entry, at_level,
}
use homeserver_os.Monitor.Ring.{keep, Holds, IsEntry, IsLogged, slots_room, slots_full}

module _ (level : LogLevel) (component message : List ℕ) where
  fill_entry-IsLogged :
      (now : ℕ) (e : LogEntry)
      → IsEntry e
      → IsLogged level component message now (fill_entry now level component message e)
  unfolding fill_entry
  fill_entry-IsLogged now e h = record {
    at_time = refl;
    has_level = refl;
    from_component = text-copy_text 63 component e.component (omega (arith, h.component_size));
    says = text-copy_text 255 message e.message (omega (arith, h.message_size));
  }

  fill_entry-IsEntry :
      (now : ℕ) (e : LogEntry) → IsEntry e → IsEntry (fill_entry now level component message e)
  unfolding fill_entry
  fill_entry-IsEntry now e h = record {
    message_size = length-copy_text 255 message e.message ∙ h.message_size;
    component_size = length-copy_text 63 component e.component ∙ h.component_size;
  }

  -- The write at the head of a ring with room, and of a full one.
  log_room :
      (m : Monitor) (es : List LogEntry) (old : LogEntry)
      → Holds m es
      → get_elem? m.log_buffer m.log_head ≡ some old
      → m.log_count < 1000
      → Holds
          (log_message level component message m)
          (es ++ fill_entry m.current_stats.uptime level component message old ∷ [])
  unfolding log_message
  log_room m es old h here room =
      let f = fill_entry m.current_stats.uptime level component message in
      let e : ltb m.log_count 1000 ≡ true = ground arith in
      rw e (record {
        storage = length-update_at m.log_head f m.log_buffer ∙ h.storage;
        entries =
            All-update_at IsEntry m.log_head f (fill_entry-IsEntry m.current_stats.uptime)
              m.log_buffer h.entries;
        head = omega arith;
        count = omega (arith, h.count, length-append es (f old ∷ []));
        bound = omega arith;
        slots =
            slots_room f m.log_buffer m.log_head old h.head here m.log_count es room h.count
              h.slots;
      })

  log_full :
      (m : Monitor) (first : LogEntry) (es : List LogEntry) (old : LogEntry)
      → Holds m (first ∷ es)
      → get_elem? m.log_buffer m.log_head ≡ some old
      → m.log_count ≡ 1000
      → Holds
          (log_message level component message m)
          (es ++ fill_entry m.current_stats.uptime level component message old ∷ [])
  unfolding log_message
  log_full m first es old h here full =
      let f = fill_entry m.current_stats.uptime level component message in
      let slots =
        slots_full f m.log_buffer m.log_head old h.head here first es (omega (arith, full, h.count))
          (λ i lt. rw full at (h.slots i (omega (arith, full, lt)))) in
      rw full (record {
        storage = length-update_at m.log_head f m.log_buffer ∙ h.storage;
        entries =
            All-update_at IsEntry m.log_head f (fill_entry-IsEntry m.current_stats.uptime)
              m.log_buffer h.entries;
        head = omega arith;
        count = omega (arith, h.count, full, length-append es (f old ∷ []));
        bound = omega arith;
        slots = slots;
      })

  log_at :
      (m : Monitor) (es : List LogEntry) (old : LogEntry)
      → Holds m es
      → get_elem? m.log_buffer m.log_head ≡ some old
      → Dec (m.log_count < 1000)
      → Holds (log_message level component message m) (
          keep max_log_entries
            (es ++ fill_entry m.current_stats.uptime level component message old ∷ []))
  log_at m es old h here (yes room) =
      let e = fill_entry m.current_stats.uptime level component message old in
      let none_lost : length (es ++ e ∷ []) - 1000 ≡ 0 =
        omega (arith, h.count, length-append es (e ∷ [])) in
      rw none_lost (log_room m es old h here room)
  log_at m [] old h here (no full) = absurd (omega (arith, h.count, full))
  log_at m (first ∷ es) old h here (no full) =
      let e = fill_entry m.current_stats.uptime level component message old in
      let all : m.log_count ≡ 1000 = omega (arith, h.bound, full) in
      let one_lost : length (first ∷ es ++ e ∷ []) - 1000 ≡ suc zero =
        omega (arith, h.count, all, length-append es (e ∷ [])) in
      rw one_lost (log_full m first es old h here all)

  -- The ring holds the last 1000 of the entries that it held and the new one, which has the time,
  -- the level and the texts of the call, cut at the sizes of their buffers.
  pub log_message-Holds :
      (m : Monitor) (es : List LogEntry)
      → Holds m es
      → (e : LogEntry) × IsLogged level component message m.current_stats.uptime e
        × Holds (log_message level component message m) (keep max_log_entries (es ++ e ∷ []))
  log_message-Holds m es h =
      let (old, here) = get_elem?-some m.log_head m.log_buffer (omega (arith, h.storage, h.head)) in
      let fits = All-get_elem? IsEntry m.log_head m.log_buffer h.entries here in
      (
        fill_entry m.current_stats.uptime level component message old,
        fill_entry-IsLogged m.current_stats.uptime old fits,
        log_at m es old h here (dec_lt m.log_count 1000),
      )

-- The entries of a level and above
abbrev pub selected : LogLevel → List LogEntry → List LogEntry
selected min_level [] = []
selected min_level (e ∷ es) =
    if at_level min_level e then e ∷ selected min_level es else selected min_level es
