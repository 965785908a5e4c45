-- ===== src/Firewall.antt =====
-- security/firewall/firewall.c, the packet filter. The file's static variables are the fields of
-- `Firewall`; a function takes them and returns them behind its result.
pub mod Rules
pub mod Filter
pub mod Defaults
mod Tests
use homeserver_os.Base.{
  ℕ, suc, ◌+◌, ◌-◌, ◌%◌, ◌^◌, Bool, true, false, ◌&&◌, ◌||◌, not, List, Option, none, some, ◌==◌,
  leb, if◌then◌else◌, ◌>>=◌,
}
use homeserver_os.Base.Int.{ℤ, pos, minus_one, min_int, rounds}
use homeserver_os.Base.Text.{codes, copy_text}
use homeserver_os.Base.Table.{find_first, write_at, remove_first, copy_out}
use homeserver_os.Base.Table.Ids.{has_id}
use mathlib.Core.Option

-- MAX_FIREWALL_RULES
abbrev pub max_firewall_rules : ℕ
max_firewall_rules = 256

-- `rule_action_t`
pub data Action : Type 0 where
  allow deny : Action

-- `protocol_t`
pub data Protocol : Type 0 where
  any tcp udp icmp : Protocol

-- `direction_t`
pub data Direction : Type 0 where
  inbound outbound both : Direction

-- The values that C gives the enumerations, which it compares.
abbrev pub protocol_value : Protocol → ℕ
protocol_value any = 0
protocol_value tcp = 1
protocol_value udp = 2
protocol_value icmp = 3

abbrev pub direction_value : Direction → ℕ
direction_value inbound = 0
direction_value outbound = 1
direction_value both = 2

abbrev pub action_value : Action → ℕ
action_value allow = 0
action_value deny = 1

-- `firewall_rule_t`
pub record Rule : Type 0 where
  pub id : ℕ  -- uint32_t
  pub action : Action
  pub protocol : Protocol
  pub direction : Direction
  pub src_ip : ℕ  -- uint32_t
  pub dst_ip : ℕ  -- uint32_t
  pub src_port : ℕ  -- uint16_t
  pub dst_port : ℕ  -- uint16_t
  pub enabled : ℕ  -- int, 0 or 1
  pub description : List ℕ  -- char[128]

abbrev pub rule_id : Rule → ℕ
rule_id r = r.id

-- `firewall_stats_t`
pub record Stats : Type 0 where
  pub blocked_packets : ℕ  -- uint32_t
  pub allowed_packets : ℕ  -- uint32_t
  pub total_packets : ℕ  -- uint32_t
  pub last_block_time : ℕ  -- uint64_t
  pub last_blocked_ip : ℕ  -- uint32_t

-- The parameters of `firewall_check_packet`.
pub record Packet : Type 0 where
  pub protocol : Protocol
  pub direction : Direction
  pub src_ip : ℕ
  pub dst_ip : ℕ
  pub src_port : ℕ
  pub dst_port : ℕ

-- The static variables of the packet filter.
pub record Firewall : Type 0 where
  pub rules : List Rule  -- [MAX_FIREWALL_RULES]
  pub count : ℕ
  pub next_id : ℕ  -- uint32_t
  pub enabled : ℕ  -- int, 0 or 1
  pub stats : Stats

-- `x++` on a uint32_t
abbrev pub inc : ℕ → ℕ
inc x = (x + 1) % 2 ^ 32

-- What `firewall_add_rule` stores in the slot that `rule` points to.
unfoldable pub fill_rule : ℕ → Action → Protocol → Direction → ℕ → ℕ → ℕ → ℕ → List ℕ → Rule → Rule
fill_rule id action protocol direction src_ip dst_ip src_port dst_port description rule =
    record rule {
      id = id;
      action = action;
      protocol = protocol;
      direction = direction;
      src_ip = src_ip;
      dst_ip = dst_ip;
      src_port = src_port;
      dst_port = dst_port;
      enabled = 1;
      description = copy_text 127 description rule.description;
    }

-- `firewall_add_rule`. `none` is a write past the end of `firewall_rules`.
unfoldable pub add_rule :
    Action
    → Protocol
    → Direction
    → (src_ip dst_ip src_port dst_port : ℕ) → List ℕ
    → Firewall
    → Option (ℕ × Firewall)
add_rule action protocol direction src_ip dst_ip src_port dst_port description s =
    if leb max_firewall_rules s.count
    then some (0, s)
    else Option.map
        (λ rules.
          (s.next_id, record s { rules = rules; count = s.count + 1; next_id = inc s.next_id }))
        (write_at s.count
          (fill_rule s.next_id action protocol direction src_ip dst_ip src_port dst_port
            description)
          s.rules)

-- `firewall_remove_rule`
unfoldable pub remove_rule : ℕ → Firewall → ℤ × Firewall
remove_rule id s = elim (remove_first (has_id rule_id id) s.count s.rules) [
  | some rules ↦ (pos 0, record s { rules = rules; count = s.count - 1 })
  | none ↦ (minus_one, s)
]

-- The six tests of the loop in `firewall_check_packet`, each of which may clear `match`.
unfoldable pub matches : Packet → Rule → Bool
matches p rule =
    not (
      not (protocol_value rule.protocol == 0)
      && not (protocol_value rule.protocol == protocol_value p.protocol))
    && (not (
          not (direction_value rule.direction == 2)
          && not (direction_value rule.direction == direction_value p.direction))
        && (not (not (rule.src_ip == 0) && not (rule.src_ip == p.src_ip))
            && (not (not (rule.dst_ip == 0) && not (rule.dst_ip == p.dst_ip))
                && (not (not (rule.src_port == 0) && not (rule.src_port == p.src_port))
                    && not (not (rule.dst_port == 0) && not (rule.dst_port == p.dst_port))))))

-- `if (!rule->enabled) continue;` before them
unfoldable pub applies : Packet → Rule → Bool
applies p rule = not (rule.enabled == 0) && matches p rule

-- The body of `if (match)`, and what follows the loop if no rule matched.
unfoldable pub act : Packet → Stats → Option Rule → ℕ × Stats
act p stats (some rule) =
    if action_value rule.action == 0
    then (1, record stats { allowed_packets = inc stats.allowed_packets })
    else (
      0,
      record stats {
        blocked_packets = inc stats.blocked_packets;
        last_block_time = 0;
        last_blocked_ip = p.src_ip;
      },
    )
act p stats none = (0, record stats { blocked_packets = inc stats.blocked_packets })

-- `firewall_check_packet`: 1 lets the packet through.
unfoldable pub check_packet : Packet → Firewall → ℕ × Firewall
check_packet p s =
    if s.enabled == 0
    then (1, s)
    else let counted = record s.stats { total_packets = inc s.stats.total_packets } in
      let (verdict, stats) = act p counted (find_first (applies p) s.count s.rules) in
      (verdict, record s { stats = stats })

-- `firewall_enable`
unfoldable pub enable : Firewall → Firewall
enable s = record s { enabled = 1 }

-- `firewall_disable`
unfoldable pub disable : Firewall → Firewall
disable s = record s { enabled = 0 }

-- `firewall_is_enabled`
unfoldable pub is_enabled : Firewall → ℕ
is_enabled s = s.enabled

-- `firewall_get_stats`
unfoldable pub get_stats : Firewall → Stats
get_stats s = s.stats

-- `firewall_get_rules`: the result, and the caller's buffer.
unfoldable pub get_rules : List Rule → ℤ → Firewall → ℤ × List Rule
get_rules buffer max_count s =
    let n = min_int s.count max_count in (n, copy_out (rounds n) s.rules buffer)

abbrev pub no_stats : Stats
no_stats = record {
  blocked_packets = 0;
  allowed_packets = 0;
  total_packets = 0;
  last_block_time = 0;
  last_blocked_ip = 0;
}

-- `firewall_init` up to its calls of `firewall_add_rule`.
unfoldable pub reset : Firewall → Firewall
reset s = record s { count = 0; next_id = 1; enabled = 1; stats = no_stats }

-- One call of `firewall_add_rule` in `firewall_init`: TCP, inbound, from anywhere to a port.
unfoldable pub allow_port : ℕ → List ℕ → Firewall → Option Firewall
allow_port port description s =
    Option.map (λ r. r.1) (add_rule allow tcp inbound 0 0 0 port description s)

-- `firewall_init`
unfoldable pub init : Firewall → Option Firewall
init s = do
  one ← allow_port 22 (codes "Allow SSH") (reset s)
  two ← allow_port 80 (codes "Allow HTTP") one
  three ← allow_port 443 (codes "Allow HTTPS") two
  allow_port 8080 (codes "Allow Admin Panel") three
