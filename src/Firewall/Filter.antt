-- ===== src/Firewall/Filter.antt =====
-- What `firewall_check_packet` of security/firewall/firewall.c decides, and what it counts.
use homeserver_os.Base.{
  ℕ, ◌+◌, ◌-◌, ◌%◌, ◌^◌, ◌≤◌, ◌≡◌, ◌≢◌, ◌↔◌, ◌⊎◌, refl, ap, sym, ◌∙◌, true, false, List, [], ◌∷◌,
  arith, Option, none, some, length, ◌==◌, if◌then◌else◌, Bool-cases, inl, inr,
}
use mathlib.Core.Path.{subst}
use homeserver_os.Base.Table.{find}
use homeserver_os.Base.Table.Laws.{find_first-eq-find}
use homeserver_os.Firewall.{
  Firewall, Rule, Stats, Action, allow, deny, Protocol, any, both, Packet, applies, matches, act,
  check_packet, inc, protocol_value, disable,
}
use homeserver_os.Firewall.Rules.{live, IsValid}

-- A field of a rule fits: it is the wildcard, or the packet's value.
abbrev pub Fits : ℕ → ℕ → Type 0
Fits r p = (r ≡ 0) ⊎ (r ≡ p)

-- The rule is about the packet.
pub record Matches (p : Packet) (r : Rule) : Type 0 where
  pub on_protocol : (r.protocol ≡ any) ⊎ (r.protocol ≡ p.protocol)
  pub on_direction : (r.direction ≡ both) ⊎ (r.direction ≡ p.direction)
  pub from_ip : Fits r.src_ip p.src_ip
  pub to_ip : Fits r.dst_ip p.dst_ip
  pub from_port : Fits r.src_port p.src_port
  pub to_port : Fits r.dst_port p.dst_port

-- The policy that a list of rules states: the first enabled rule that matches decides, and a
-- packet that none is about is denied.
pub data Decides (p : Packet) : List Rule → Action → Type 0 where
  default : Decides p [] deny
  hit :
      {r : Rule} {rs : List Rule} {a : Action}
      → r.enabled ≢ 0
      → Matches p r
      → r.action ≡ a
      → Decides p (r ∷ rs) a
  skip :
      {r : Rule} {rs : List Rule} {a : Action}
      → (r.enabled ≡ 0) ⊎ ¬ Matches p r
      → Decides p rs a
      → Decides p (r ∷ rs) a

abbrev pub verdict_of : Action → ℕ
verdict_of allow = 1
verdict_of deny = 0

protocol_test : (r p : Protocol) → (protocol_value r ≡ protocol_value p) → r ≡ p
protocol_test r p h = ground arith

matches-Matches : (p : Packet) (r : Rule) → matches p r ≡ true → Matches p r
unfolding matches
matches-Matches p r h = record {
  on_protocol = ground arith;
  on_direction = ground arith;
  from_ip = ground arith;
  to_ip = ground arith;
  from_port = ground arith;
  to_port = ground arith;
}

Matches-matches : (p : Packet) (r : Rule) → Matches p r → matches p r ≡ true
unfolding matches
Matches-matches p r m = ground arith

applies-hit : (p : Packet) (r : Rule) → applies p r ≡ true → (r.enabled ≢ 0) × Matches p r
unfolding applies
applies-hit p r h = (ground arith, matches-Matches p r (ground arith))

applies-skip : (p : Packet) (r : Rule) → applies p r ≡ false → (r.enabled ≡ 0) ⊎ ¬ Matches p r
unfolding applies
applies-skip p r h = elim (Bool-cases (matches p r)) [
  | inl e ↦ inl (ground arith)
  | inr e ↦ inr (λ m. cc (e, Matches-matches p r m))
]

applies_of_hit : (p : Packet) (r : Rule) → r.enabled ≢ 0 → Matches p r → applies p r ≡ true
unfolding applies
applies_of_hit p r on m = ground (arith, Matches-matches p r m)

-- The action of the rule that the loop stops at, and the default.
abbrev pub decision : Option Rule → Action
decision none = deny
decision (some r) = r.action

Decides-find : (p : Packet) (rs : List Rule) → Decides p rs (decision (find (applies p) rs))
Decides-find p [] = default
Decides-find p (r ∷ rs) = elim (Bool-cases (applies p r)) [
  | inl e ↦ let (on, m) = applies-hit p r e in rw e (hit on m refl)
  | inr e ↦ rw e (skip (applies-skip p r e) (Decides-find p rs))
]

decision_of_Decides :
    (p : Packet) {rs : List Rule} {a : Action} → Decides p rs a → a ≡ decision (find (applies p) rs)
decision_of_Decides p default = refl
decision_of_Decides p (hit {r} on m e) = rw (applies_of_hit p r on m) (sym e)
decision_of_Decides p (skip {r} {rs} {a} why d) = elim (Bool-cases (applies p r)) [
  | inl e ↦
      let (on, m) = applies-hit p r e in
      elim why [ inl off ↦ absurd (on off) | inr apart ↦ absurd (apart m) ]
  | inr e ↦ rw e (decision_of_Decides p d)
]

act-verdict : (p : Packet) (st : Stats) (o : Option Rule) → (act p st o).0 ≡ verdict_of (decision o)
unfolding act
act-verdict p st none = refl
act-verdict p st (some r) = ground arith

pub check_packet-verdict :
    (p : Packet) (s : Firewall)
    → s.enabled ≢ 0
    → (check_packet p s).0 ≡ verdict_of (decision (find (applies p) (live s)))
unfolding check_packet
check_packet-verdict p s on =
    let test : (s.enabled == 0) ≡ false = ground arith in
    rw (test, find_first-eq-find (applies p) s.count s.rules)
      (act-verdict p _ (find (applies p) (live s)))

-- While the filter is on, a packet is let through exactly when the rules of the table decide to
-- allow it, and refused exactly when they decide to deny it.
pub check_packet-Decides :
    (p : Packet) (s : Firewall) (a : Action)
    → s.enabled ≢ 0
    → Decides p (live s) a ↔ ((check_packet p s).0 ≡ verdict_of a)
check_packet-Decides p s a on = (forward, backward)
  where
    found : Action
    found = decision (find (applies p) (live s))

    forward : Decides p (live s) a → (check_packet p s).0 ≡ verdict_of a
    forward d = check_packet-verdict p s on ∙ ap verdict_of (sym (decision_of_Decides p d))

    verdict_inj : (x y : Action) → verdict_of x ≡ verdict_of y → x ≡ y
    verdict_inj x y e = ground arith

    backward : (check_packet p s).0 ≡ verdict_of a → Decides p (live s) a
    backward e =
        subst (Decides p (live s)) (verdict_inj found a (sym (check_packet-verdict p s on) ∙ e))
          (Decides-find p (live s))

-- What one call leaves of the state: nothing but the counters changes; every packet that the
-- filter sees is counted once as allowed or once as blocked, as the verdict says.
pub record Counted (s : Firewall) (verdict : ℕ) (t : Firewall) : Type 0 where
  pub same_rules : live t ≡ live s
  pub same_enabled : t.enabled ≡ s.enabled
  pub total : t.stats.total_packets ≡ inc s.stats.total_packets
  pub allowed :
      t.stats.allowed_packets
      ≡ (if verdict == 1 then inc s.stats.allowed_packets else s.stats.allowed_packets)
  pub blocked :
      t.stats.blocked_packets
      ≡ (if verdict == 1 then s.stats.blocked_packets else inc s.stats.blocked_packets)

check_packet-Counted :
    (p : Packet) (s : Firewall)
    → s.enabled ≢ 0
    → Counted s (check_packet p s).0 (check_packet p s).1
unfolding check_packet act
check_packet-Counted p s on = ground arith

pub check_packet-IsValid : (p : Packet) (s : Firewall) → IsValid s → IsValid (check_packet p s).1
unfolding check_packet act
check_packet-IsValid p s v = ground arith

-- While the filter is off every packet is let through, and nothing is counted.
pub check_packet_off : (p : Packet) (s : Firewall) → check_packet p (disable s) ≡ (1, disable s)
unfolding check_packet disable
check_packet_off p s = refl

-- A stream of packets, and how many of them were let through.
abbrev pub check_all : List Packet → Firewall → ℕ × Firewall
check_all [] s = (0, s)
check_all (p ∷ ps) s =
    let (verdict, s') = check_packet p s in let (n, t) = check_all ps s' in (verdict + n, t)

-- The counters over a stream, modulo the width of uint32_t: all packets, those let through, and
-- those refused. The rules and the switch stay as they were.
pub record Tally (s : Firewall) (ps : List Packet) (n : ℕ) (t : Firewall) : Type 0 where
  pub bound : n ≤ length ps
  pub total : t.stats.total_packets ≡ (s.stats.total_packets + length ps) % 2 ^ 32
  pub allowed : t.stats.allowed_packets ≡ (s.stats.allowed_packets + n) % 2 ^ 32
  pub blocked : t.stats.blocked_packets ≡ (s.stats.blocked_packets + (length ps - n)) % 2 ^ 32
  pub same_rules : live t ≡ live s
  pub still_on : t.enabled ≡ s.enabled

-- One packet, in the same form.
record Step (s : Firewall) (n : ℕ) (t : Firewall) : Type 0 where
  bound : n ≤ 1
  total : t.stats.total_packets ≡ (s.stats.total_packets + 1) % 2 ^ 32
  allowed : t.stats.allowed_packets ≡ (s.stats.allowed_packets + n) % 2 ^ 32
  blocked : t.stats.blocked_packets ≡ (s.stats.blocked_packets + (1 - n)) % 2 ^ 32

check_packet-Step :
    (p : Packet) (s : Firewall)
    → IsValid s
    → s.enabled ≢ 0
    → Step s (check_packet p s).0 (check_packet p s).1
unfolding check_packet act
check_packet-Step p s v on = ground arith

-- Over any stream of packets the counters of a filter that is on agree with the verdicts it gave.
pub check_all-Tally :
    (ps : List Packet) (s : Firewall)
    → IsValid s
    → s.enabled ≢ 0
    → Tally s ps (check_all ps s).0 (check_all ps s).1
check_all-Tally [] s v on = record {
  bound = omega arith;
  total = omega (arith, v.counted);
  allowed = omega (arith, v.allowed_fits);
  blocked = omega (arith, v.blocked_fits);
  same_rules = refl;
  still_on = refl;
}
check_all-Tally (p ∷ ps) s v on =
    let c = check_packet-Counted p s on in
    let one = check_packet-Step p s v on in
    let on' : (check_packet p s).1.enabled ≢ 0 = rw c.same_enabled on in
    let rest = check_all-Tally ps (check_packet p s).1 (check_packet-IsValid p s v) on' in
    record {
      bound = omega (arith, one.bound, rest.bound);
      total = omega (arith, one.total, rest.total);
      allowed = omega (arith, one.allowed, rest.allowed);
      blocked = omega (arith, one.bound, rest.bound, one.blocked, rest.blocked);
      same_rules = rest.same_rules ∙ c.same_rules;
      still_on = rest.still_on ∙ c.same_enabled;
    }
