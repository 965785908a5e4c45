-- ===== src/Firewall/Tests.antt =====
-- Runs of security/firewall/firewall.c on small inputs.
use homeserver_os.Base.{◌≡◌, ◌↔◌, refl, [], ◌∷◌, some, arith, replicate}
use homeserver_os.Base.Table.{find_first, remove_first}
use homeserver_os.Base.Table.Slots.{All-replicate}
use homeserver_os.Firewall.{
  Firewall, Rule, allow, deny, any, udp, inbound, both, Packet, remove_rule, check_packet, act,
  applies, matches, init, no_stats,
}
use homeserver_os.Firewall.Rules.{IsValid, HasBuffer}
use homeserver_os.Firewall.Filter.{Decides, check_packet-Decides, check_all, Tally, check_all-Tally}
use homeserver_os.Firewall.Defaults.{HasStorage, Initial, init-Initial}

abbrev blank : Rule
blank = record {
  id = 0;
  action = allow;
  protocol = any;
  direction = inbound;
  src_ip = 0;
  dst_ip = 0;
  src_port = 0;
  dst_port = 0;
  enabled = 0;
  description = replicate 128 0;
}

-- The memory as the program is loaded.
abbrev loaded : Firewall
loaded = record {
  rules = replicate 256 blank;
  count = 0;
  next_id = 1;
  enabled = 1;
  stats = no_stats;
}

abbrev block_dns : Rule
block_dns = record blank {
  id = 1;
  action = deny;
  protocol = udp;
  direction = both;
  dst_port = 53;
  enabled = 1;
}

-- One rule in force.
abbrev one_rule : Firewall
one_rule = record loaded { rules = block_dns ∷ replicate 255 blank; count = 1; next_id = 2 }

one_rule-IsValid : IsValid one_rule
one_rule-IsValid = record {
  table = record {
    storage = refl;
    within = omega arith;
    ids = omega arith;
    slots = (refl, All-replicate HasBuffer 255 blank refl);
    small = omega arith;
  };
  counted = omega arith;
  blocked_fits = omega arith;
  allowed_fits = omega arith;
}

abbrev dns_query : Packet
dns_query = record {
  protocol = udp;
  direction = inbound;
  src_ip = 7;
  dst_ip = 8;
  src_port = 9;
  dst_port = 53;
}

loaded-HasStorage : HasStorage loaded
loaded-HasStorage = record { storage = refl; buffers = All-replicate HasBuffer 256 blank refl }

dns_blocked : (check_packet dns_query one_rule).0 ≡ 0
unfolding check_packet act applies matches find_first
dns_blocked = refl

remove_one : (remove_rule 1 one_rule).1.count ≡ 0
unfolding remove_rule remove_first
remove_one = refl

check_packet-Decides_example :
    Decides dns_query (block_dns ∷ []) deny ↔ ((check_packet dns_query one_rule).0 ≡ 0)
check_packet-Decides_example = check_packet-Decides dns_query one_rule deny (omega arith)

check_all-Tally_example :
    Tally one_rule
      (dns_query ∷ dns_query ∷ [])
      (check_all (dns_query ∷ dns_query ∷ []) one_rule).0
      (check_all (dns_query ∷ dns_query ∷ []) one_rule).1
check_all-Tally_example =
    check_all-Tally (dns_query ∷ dns_query ∷ []) one_rule one_rule-IsValid (omega arith)

init-Initial_example : (t : Firewall) × (init loaded ≡ some t) × Initial t
init-Initial_example = init-Initial loaded loaded-HasStorage
