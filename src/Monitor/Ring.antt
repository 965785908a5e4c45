-- ===== src/Monitor/Ring.antt =====
-- The ring of log entries of monitoring/monitor.c as a list that forgets its oldest entry.
use homeserver_os.Base.{
  ℕ, zero, suc, ◌+◌, ◌-◌, ◌%◌, ◌<◌, ◌≤◌, ◌≡◌, ◌≢◌, refl, sym, ◌∙◌, List, [], ◌∷◌, ◌++◌, some, arith,
  length, get_elem?, take, drop,
}
use homeserver_os.Base.Text.{text}
use homeserver_os.Base.Table.{update_at}
use homeserver_os.Base.Table.Slots.{All, get_elem?-update_at, get_elem?-update_at_ne}
use native.Mathlib.Decide.{dec_lt}
use homeserver_os.Monitor.{Monitor, LogEntry, LogLevel, max_log_entries}

-- The last `n` entries
abbrev pub keep {ℓ} : {A : Type ℓ} → ℕ → List A → List A
keep n xs = drop (length xs - n) xs

-- The slot of the entry `i`, counted from the oldest, where `head` is to be written next.
abbrev pub slot : ℕ → ℕ → ℕ → ℕ
slot head count i = ((head + 1000 - count) % 1000 + i) % 1000

pub record IsEntry (e : LogEntry) : Type 0 where
  pub message_size : length e.message ≡ 256
  pub component_size : length e.component ≡ 64

-- The ring holds these entries, the oldest first.
pub record Holds (m : Monitor) (es : List LogEntry) : Type 0 where
  pub storage : length m.log_buffer ≡ max_log_entries
  pub entries : All IsEntry m.log_buffer
  pub head : m.log_head < max_log_entries
  pub count : m.log_count ≡ length es
  pub bound : m.log_count ≤ max_log_entries
  pub slots :
      (i : ℕ)
      → i < m.log_count
      → get_elem? m.log_buffer (slot m.log_head m.log_count i) ≡ get_elem? es i

-- The entry of one call of `log_message`.
pub record IsLogged (level : LogLevel) (component message : List ℕ) (now : ℕ) (e : LogEntry)
    : Type 0 where
  pub at_time : e.timestamp ≡ now
  pub has_level : e.level ≡ level
  pub from_component : text e.component ≡ take 63 (text component)
  pub says : text e.message ≡ take 255 (text message)

module _ {ℓ} {A : Type ℓ} where
  pub get_elem?-append_left :
      (i : ℕ) (xs ys : List A) → i < length xs → get_elem? (xs ++ ys) i ≡ get_elem? xs i
  get_elem?-append_left i [] ys h = absurd (omega arith)
  get_elem?-append_left zero (x ∷ xs) ys h = refl
  get_elem?-append_left (suc i) (x ∷ xs) ys h = get_elem?-append_left i xs ys (omega arith)

  pub get_elem?-append_at :
      (i : ℕ) (xs : List A) (y : A) → i ≡ length xs → get_elem? (xs ++ y ∷ []) i ≡ some y
  get_elem?-append_at zero [] y h = refl
  get_elem?-append_at (suc i) [] y h = absurd (omega arith)
  get_elem?-append_at zero (x ∷ xs) y h = absurd (omega arith)
  get_elem?-append_at (suc i) (x ∷ xs) y h = get_elem?-append_at i xs y (omega arith)

-- The slots after the write at the head, while there is room.
module _ (f : LogEntry → LogEntry) (buffer : List LogEntry) (head : ℕ) (old : LogEntry)
    (low : head < 1000) (at_head : get_elem? buffer head ≡ some old) where
  pub slots_room :
      (count : ℕ) (es : List LogEntry)
      → count < 1000
      → count ≡ length es
      → ((i : ℕ) → i < count → get_elem? buffer (slot head count i) ≡ get_elem? es i)
      → (i : ℕ) → i < count + 1
      → get_elem? (update_at head f buffer) (slot ((head + 1) % 1000) (count + 1) i)
        ≡ get_elem? (es ++ f old ∷ []) i
  slots_room count es room size before i lt = elim (dec_lt i count) [
    | yes earlier ↦
        let same : slot ((head + 1) % 1000) (count + 1) i ≡ slot head count i = omega arith in
        let other : slot head count i ≢ head = λ e. omega arith in
        rw same (
          get_elem?-update_at_ne head (slot head count i) f buffer other
          ∙ before i earlier
          ∙ sym (get_elem?-append_left i es (f old ∷ []) (omega arith)))
    | no new ↦
        let same : slot ((head + 1) % 1000) (count + 1) i ≡ head = omega arith in
        rw same (
          get_elem?-update_at head f buffer at_head
          ∙ sym (get_elem?-append_at i es (f old) (omega arith)))
  ]

  pub slots_full :
      (first : LogEntry) (es : List LogEntry)
      → 1000 ≡ suc (length es)
      → ((i : ℕ) → i < 1000 → get_elem? buffer (slot head 1000 i) ≡ get_elem? (first ∷ es) i)
      → (i : ℕ) → i < 1000
      → get_elem? (update_at head f buffer) (slot ((head + 1) % 1000) 1000 i)
        ≡ get_elem? (es ++ f old ∷ []) i
  slots_full first es size before i lt = elim (dec_lt i 999) [
    | yes earlier ↦
        let same : slot ((head + 1) % 1000) 1000 i ≡ slot head 1000 (suc i) = omega arith in
        let other : slot head 1000 (suc i) ≢ head = λ e. omega arith in
        rw same (
          get_elem?-update_at_ne head (slot head 1000 (suc i)) f buffer other
          ∙ before (suc i) (omega arith)
          ∙ sym (get_elem?-append_left i es (f old ∷ []) (omega arith)))
    | no new ↦
        let same : slot ((head + 1) % 1000) 1000 i ≡ head = omega arith in
        rw same (
          get_elem?-update_at head f buffer at_head
          ∙ sym (get_elem?-append_at i es (f old) (omega arith)))
  ]
