-- ===== src/Firewall/Rules.antt =====
-- The rule table of security/firewall/firewall.c: adding and removing rules.
use homeserver_os.Base.{
  ℕ, suc, ◌+◌, ◌-◌, ◌%◌, ◌^◌, ◌<◌, ◌≤◌, ◌≡◌, ◌≢◌, refl, ◌∙◌, true, false, List, [], ◌∷◌, ◌++◌,
  arith, length, none, some, take, leb,
}
use homeserver_os.Base.Int.{pos, minus_one}
use homeserver_os.Base.Text.{text, text-copy_text, length-copy_text}
use homeserver_os.Base.Table.{find, erase_first}
use homeserver_os.Base.Table.Ids.{has_id}
use homeserver_os.Base.Table.Slots.{All-get_elem?}
use homeserver_os.Base.Table.Laws.{
  write_at-Wrote, remove_first-Removed, remove_first_missing, remove_first-some,
}
use homeserver_os.Base.Table.Valid.{
  IsTable, write_at-in_bounds, IsTable-write_at, IsTable-remove_first, find_removed_self,
  find_removed_ne,
}
use homeserver_os.Firewall.{
  Firewall, Rule, Action, Protocol, Direction, rule_id, fill_rule, add_rule, remove_rule, inc,
  max_firewall_rules,
}

-- The rules that are in force, in the order of the table.
abbrev pub live : Firewall → List Rule
live s = take s.count s.rules

-- `char description[128]`
abbrev pub HasBuffer : Rule → Type 0
HasBuffer r = length r.description ≡ 128

-- Between two calls: a table of 256 slots, and each packet counted as blocked or as allowed.
pub record IsValid (s : Firewall) : Type 0 where
  pub table : IsTable rule_id HasBuffer max_firewall_rules s.rules s.count s.next_id
  pub counted : s.stats.total_packets ≡ (s.stats.blocked_packets + s.stats.allowed_packets) % 2 ^ 32
  pub blocked_fits : s.stats.blocked_packets < 2 ^ 32
  pub allowed_fits : s.stats.allowed_packets < 2 ^ 32

-- The parameters of one call of `firewall_add_rule`.
module _ (action : Action) (protocol : Protocol) (direction : Direction)
    (src_ip dst_ip src_port dst_port : ℕ) (description : List ℕ) where
  abbrev fill : ℕ → Rule → Rule
  fill id = fill_rule id action protocol direction src_ip dst_ip src_port dst_port description

  -- A rule that has the parameters of the call, is enabled, and has their text up to 127 bytes.
  pub record IsRule (id : ℕ) (r : Rule) : Type 0 where
    pub named : r.id ≡ id
    pub acts : r.action ≡ action
    pub on_protocol : r.protocol ≡ protocol
    pub on_direction : r.direction ≡ direction
    pub from_ip : r.src_ip ≡ src_ip
    pub to_ip : r.dst_ip ≡ dst_ip
    pub from_port : r.src_port ≡ src_port
    pub to_port : r.dst_port ≡ dst_port
    pub in_force : r.enabled ≡ 1
    pub described : text r.description ≡ take 127 (text description)

  fill-IsRule : (id : ℕ) (r : Rule) → HasBuffer r → IsRule id (fill id r)
  unfolding fill_rule
  fill-IsRule id r h = record {
    named = refl;
    acts = refl;
    on_protocol = refl;
    on_direction = refl;
    from_ip = refl;
    to_ip = refl;
    from_port = refl;
    to_port = refl;
    in_force = refl;
    described = text-copy_text 127 description r.description (omega arith);
  }

  fill-id : (id : ℕ) (r : Rule) → rule_id (fill id r) ≡ id
  unfolding fill_rule
  fill-id id r = refl

  fill-HasBuffer : (id : ℕ) (r : Rule) → HasBuffer r → HasBuffer (fill id r)
  unfolding fill_rule
  fill-HasBuffer id r h = length-copy_text 127 description r.description ∙ h

  -- What a successful `firewall_add_rule` leaves.
  pub record Added (s t : Firewall) : Type 0 where
    pub rule : Rule
    pub is_rule : IsRule s.next_id rule
    pub appended : live t ≡ live s ++ rule ∷ []
    pub more : t.count ≡ s.count + 1
    pub counter : t.next_id ≡ s.next_id + 1
    pub still_on : t.enabled ≡ s.enabled
    pub same_stats : t.stats ≡ s.stats
    pub valid : IsValid t

  -- With room in the table and in the id counter, the call returns the counter and appends the rule.
  pub add_rule-Added :
      (s : Firewall)
      → IsValid s
      → s.count < max_firewall_rules
      → s.next_id + 1 < 2 ^ 32
      → (t : Firewall) × (add_rule action protocol direction src_ip dst_ip src_port dst_port
            description s
          ≡ some (s.next_id, t))
        × Added s t
  unfolding add_rule
  add_rule-Added s v room small =
      let (rules, e) = write_at-in_bounds rule_id HasBuffer v.table (fill s.next_id) room in
      let w = write_at-Wrote s.count (fill s.next_id) s.rules e in
      let next : s.count + 1 ≡ suc s.count = omega arith in
      let exact : inc s.next_id ≡ s.next_id + 1 = omega arith in
      let t : Firewall = record s { rules = rules; count = s.count + 1; next_id = inc s.next_id } in
      let open_slot : leb max_firewall_rules s.count ≡ false = ground arith in
      (
        t,
        rw (open_slot, e),
        record {
          rule = fill s.next_id w.old;
          is_rule =
              fill-IsRule s.next_id w.old
                (All-get_elem? HasBuffer s.count s.rules v.table.slots w.slot);
          appended = rw next w.live;
          more = refl;
          counter = exact;
          still_on = refl;
          same_stats = refl;
          valid = record {
            table =
                IsTable-write_at rule_id HasBuffer v.table (fill s.next_id) (fill-id s.next_id)
                  (fill-HasBuffer s.next_id) e room small;
            counted = v.counted;
            blocked_fits = v.blocked_fits;
            allowed_fits = v.allowed_fits;
          };
        },
      )

  -- A full table is left alone, and 0 is returned.
  pub add_rule-full :
      (s : Firewall)
      → max_firewall_rules ≤ s.count
      → add_rule action protocol direction src_ip dst_ip src_port dst_port description s
        ≡ some (0, s)
  unfolding add_rule
  add_rule-full s h = let full : leb max_firewall_rules s.count ≡ true = ground arith in rw full

-- What `firewall_remove_rule` leaves when a rule has the id.
pub record Dropped (id : ℕ) (s t : Firewall) : Type 0 where
  pub removed : live t ≡ erase_first (has_id rule_id id) (live s)
  pub gone : find (has_id rule_id id) (live t) ≡ none
  pub others :
      (j : ℕ) → j ≢ id → find (has_id rule_id j) (live t) ≡ find (has_id rule_id j) (live s)
  pub fewer : t.count + 1 ≡ s.count
  pub valid : IsValid t

module _ (id : ℕ) (s : Firewall) (v : IsValid s) where
  -- An id in use: 0 is returned, its rule leaves the table, and the others stay in their order.
  pub remove_rule-Dropped :
      (r : Rule)
      → find (has_id rule_id id) (live s) ≡ some r
      → (t : Firewall) × (remove_rule id s ≡ (pos 0, t)) × Dropped id s t
  unfolding remove_rule
  remove_rule-Dropped r h =
      let (rules, e) = remove_first-some (has_id rule_id id) s.count s.rules h in
      let d =
        remove_first-Removed (has_id rule_id id) s.count s.rules
          (omega (arith, v.table.storage, v.table.within)) e in
      (
        record s { rules = rules; count = s.count - 1 },
        rw (e, remove_rule),
        record {
          removed = d.live;
          gone = find_removed_self rule_id HasBuffer v.table id e;
          others = λ j ne. find_removed_ne rule_id HasBuffer v.table id j ne e;
          fewer = omega (arith, d.nonempty);
          valid = record {
            table = IsTable-remove_first rule_id HasBuffer v.table (has_id rule_id id) e;
            counted = v.counted;
            blocked_fits = v.blocked_fits;
            allowed_fits = v.allowed_fits;
          };
        },
      )

  -- An id that is not in use: -1, and nothing changes.
  pub remove_rule-missing :
      find (has_id rule_id id) (live s) ≡ none → remove_rule id s ≡ (minus_one, s)
  unfolding remove_rule
  remove_rule-missing h =
      rw (remove_first_missing (has_id rule_id id) s.count s.rules h, remove_rule)
