-- ===== src/Firewall/Defaults.antt =====
-- The policy that `firewall_init` of security/firewall/firewall.c sets up.
use homeserver_os.Base.{
  ℕ, ◌+◌, ◌<◌, ◌≡◌, ◌≢◌, Bool, List, [], ◌∷◌, ◌++◌, arith, some, length, ◌==◌, ◌&&◌, ◌||◌,
  if◌then◌else◌,
}
use homeserver_os.Base.Text.{codes}
use homeserver_os.Base.Table.{find}
use homeserver_os.Base.Table.Slots.{All}
use homeserver_os.Firewall.{
  Firewall, Rule, allow, tcp, inbound, Packet, applies, matches, check_packet, protocol_value,
  direction_value, allow_port, reset, init, max_firewall_rules,
}
use homeserver_os.Firewall.Rules.{live, IsValid, HasBuffer, IsRule, add_rule-Added}
use homeserver_os.Firewall.Filter.{check_packet-verdict, verdict_of, decision}

-- The arrays of the file have the sizes that it declares; nothing is said of what they hold.
pub record HasStorage (s : Firewall) : Type 0 where
  pub storage : length s.rules ≡ max_firewall_rules
  pub buffers : All HasBuffer s.rules

reset-IsValid : (s : Firewall) → HasStorage s → IsValid (reset s)
unfolding reset
reset-IsValid s h = record {
  table = record {
    storage = h.storage;
    within = omega arith;
    ids = omega arith;
    slots = h.buffers;
    small = omega arith;
  };
  counted = omega arith;
  blocked_fits = omega arith;
  allowed_fits = omega arith;
}

-- An enabled rule that lets TCP in to one port.
record Opens (port : ℕ) (r : Rule) : Type 0 where
  acts : r.action ≡ allow
  test :
      (p : Packet)
      → applies p r ≡ (
          protocol_value p.protocol == 1
          && (direction_value p.direction == 0 && p.dst_port == port))

IsRule-Opens :
    (port : ℕ) (text : List ℕ) (id : ℕ) (r : Rule)
    → port ≢ 0
    → IsRule allow tcp inbound 0 0 0 port text id r
    → Opens port r
unfolding applies matches
IsRule-Opens port text id r ne h = record { acts = h.acts; test = λ p. ground arith }

-- One of the four calls, made while the table is nearly empty.
record Opened (port : ℕ) (s t : Firewall) : Type 0 where
  rule : Rule
  opens : Opens port rule
  appended : live t ≡ live s ++ rule ∷ []
  more : t.count ≡ s.count + 1
  counter : t.next_id ≡ s.next_id + 1
  still_on : t.enabled ≡ s.enabled
  valid : IsValid t

allow_port-Opened :
    (port : ℕ) (text : List ℕ) (s : Firewall)
    → port ≢ 0
    → IsValid s
    → s.count < 4
    → s.next_id < 10
    → (t : Firewall) × (allow_port port text s ≡ some t) × Opened port s t
unfolding allow_port
allow_port-Opened port text s ne v room small =
    let (t, e, a) =
      add_rule-Added allow tcp inbound 0 0 0 port text s v (omega arith) (omega arith) in
    (
      t,
      rw e,
      record {
        rule = a.rule;
        opens = IsRule-Opens port text s.next_id a.rule ne a.is_rule;
        appended = a.appended;
        more = a.more;
        counter = a.counter;
        still_on = a.still_on;
        valid = a.valid;
      },
    )

-- The TCP ports that the default rules let in.
abbrev pub default_port : ℕ → Bool
default_port port = port == 22 || (port == 80 || (port == 443 || port == 8080))

-- What `firewall_init` leaves: a valid table of four rules, and the default policy.
pub record Initial (t : Firewall) : Type 0 where
  pub valid : IsValid t
  pub four : t.count ≡ 4
  pub is_on : t.enabled ≡ 1
  pub policy :
      (p : Packet)
      → (check_packet p t).0 ≡ (
          if protocol_value p.protocol == 1
            && (direction_value p.direction == 0 && default_port p.dst_port)
          then 1
          else 0)

four_rules :
    (p : Packet) (q r s t : Rule)
    → Opens 22 q
    → Opens 80 r
    → Opens 443 s
    → Opens 8080 t
    → verdict_of (decision (find (applies p) (q ∷ r ∷ s ∷ t ∷ []))) ≡ (
        if protocol_value p.protocol == 1
          && (direction_value p.direction == 0 && default_port p.dst_port)
        then 1
        else 0)
four_rules p q r s t a b c d =
    ground (arith, a.test p, b.test p, c.test p, d.test p, a.acts, b.acts, c.acts, d.acts)

-- Whatever the arrays held, `firewall_init` writes inside them, and then exactly the TCP packets
-- that come in to port 22, 80, 443 or 8080 are let through.
pub init-Initial : (s : Firewall) → HasStorage s → (t : Firewall) × (init s ≡ some t) × Initial t
unfolding init reset
init-Initial s h =
    let v = reset-IsValid s h in
    let (a, ea, oa) =
      allow_port-Opened 22 (codes "Allow SSH") (reset s) (omega arith) v (omega arith)
        (omega arith) in
    let (b, eb, ob) =
      allow_port-Opened 80 (codes "Allow HTTP") a (omega arith) oa.valid (omega (arith, oa.more))
        (omega (arith, oa.counter)) in
    let (c, ec, oc) =
      allow_port-Opened 443 (codes "Allow HTTPS") b (omega arith) ob.valid
        (omega (arith, oa.more, ob.more)) (omega (arith, oa.counter, ob.counter)) in
    let (d, ed, od) =
      allow_port-Opened 8080 (codes "Allow Admin Panel") c (omega arith) oc.valid
        (omega (arith, oa.more, ob.more, oc.more))
        (omega (arith, oa.counter, ob.counter, oc.counter)) in
    let on : d.enabled ≡ 1 = omega (arith, od.still_on, oc.still_on, ob.still_on, oa.still_on) in
    (
      d,
      rw (ea, eb, ec) ed,
      record {
        valid = od.valid;
        four = omega (arith, oa.more, ob.more, oc.more, od.more);
        is_on = on;
        policy = λ p.
            rw
              (
                check_packet-verdict p d (omega arith),
                od.appended,
                oc.appended,
                ob.appended,
                oa.appended,
              )
              (four_rules p oa.rule ob.rule oc.rule od.rule oa.opens ob.opens oc.opens od.opens);
      },
    )
