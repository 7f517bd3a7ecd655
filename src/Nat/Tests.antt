-- ===== src/Nat/Tests.antt =====
-- Runs of the model, and each theorem at an input that meets its hypotheses.
use ucosii_arm64_qemu.Prelude.{
  ◌/◌, ◌-◌, ◌&&◌, ltb, ℕ, ◌<◌, ◌≡◌, refl, true, false, none, some, [], ◌∷◌, arith, set, replicate,
  find_index,
}
use ucosii_arm64_qemu.Addr.{Ip, ip_equal}
use ucosii_arm64_qemu.Arp.{unused_arp}
use ucosii_arm64_qemu.Nat.Types.{
  NatState, NatEntry, NatConfig, Flow, Reply, entry_at, unused_entry, zero_stats, nat_init,
}
use ucosii_arm64_qemu.Nat.Hash.{nat_hash, nat_outbound_hash, nat_hash_add, nat_outbound_hash_add}
use ucosii_arm64_qemu.Nat.Lookup.{
  out_match, in_match, nat_find_entry, nat_find_reverse_entry, nat_alloc_entry,
}
use ucosii_arm64_qemu.Nat.Translate.{nat_translate_outbound, nat_translate_inbound, new_session}
use ucosii_arm64_qemu.Nat.Sweep.{nat_cleanup_expired, is_expired}
use ucosii_arm64_qemu.Nat.WellFormed.{WellFormed, retable-WellFormed}
use ucosii_arm64_qemu.Nat.Session.{OneSession, nat_find_entry-eq-scan}
use ucosii_arm64_qemu.Nat.RoundTrip.{
  reply_to, Admits, translate_outbound_stable, translate_inbound-Admits,
}
use ucosii_arm64_qemu.Nat.Expiry.{nat_cleanup_keeps, nat_cleanup_wrap}
use ucosii_arm64_qemu.Nat.Stale.{nat_cleanup_strands}
use ucosii_arm64_qemu.Nat.Run.{
  outbound, cleanup, nat_run, nat_run-Invariant_init, translate_outbound_served,
}

abbrev host : Ip
host = record { a = 192; b = 168; c = 1; d = 103 }

abbrev server : Ip
server = record { a = 8; b = 8; c = 8; d = 8 }

abbrev config : NatConfig
config = record {
  lan_ip = record { a = 192; b = 168; c = 1; d = 2 };
  wan_ip = record { a = 10; b = 3; c = 5; d = 99 };
  port_range_start = 20000;
  port_range_end = 30000;
}

-- The static variables before `nat_init`: all zero but the configuration and the first port.
abbrev loaded : NatState
loaded = record {
  nat_table = replicate 64 unused_entry;
  nat_hash_table = replicate 128 0;
  nat_outbound_hash_table = replicate 128 0;
  nat_statistics = zero_stats;
  arp_table = replicate 32 unused_arp;
  nat_cfg = config;
  next_port = 20000;
}

abbrev dns : Flow
dns = record { protocol = 17; lan_ip = host; lan_port = 5353; dst_ip = server; dst_port = 53 }

-- After `nat_init`, and after the first packet of the flow.
fresh : NatState
unfolding nat_init
fresh = nat_init loaded

opened : NatState
unfolding fresh nat_run nat_translate_outbound nat_find_entry nat_alloc_entry find_index out_match
    nat_hash nat_outbound_hash nat_hash_add nat_outbound_hash_add new_session
opened = nat_run fresh (outbound dns 7 ∷ [])

fresh-Invariant : WellFormed fresh × OneSession fresh
unfolding fresh nat_run
fresh-Invariant = nat_run-Invariant_init loaded [] (omega arith) (omega arith)

opened-Invariant : WellFormed opened × OneSession opened
unfolding opened
opened-Invariant = nat_run-Invariant_init loaded (outbound dns 7 ∷ []) (omega arith) (omega arith)

-- The first session takes port 20000, and the answer comes back to the host.
first_session :
    ((nat_translate_outbound dns 7 fresh).1 ≡ some 20000)
    × ((nat_translate_inbound (reply_to dns 20000) 9 (nat_translate_outbound dns 7 fresh).0).1
        ≡ some (host, 5353))
unfolding fresh nat_init nat_translate_outbound nat_translate_inbound nat_find_entry
    nat_find_reverse_entry nat_alloc_entry find_index out_match in_match nat_hash nat_outbound_hash
    nat_hash_add nat_outbound_hash_add ip_equal new_session
first_session = (refl, refl)

translate_outbound_stable_example :
    (nat_translate_outbound dns 8 (nat_translate_outbound dns 7 fresh).0).1 ≡ some 20000
unfolding opened
translate_outbound_stable_example =
    translate_outbound_stable fresh dns 7 8 20000 fresh-Invariant.0 fresh-Invariant.1 refl

translate_inbound-Admits_example :
    (i : ℕ) × (i < 64) × Admits (entry_at opened i) (reply_to dns 20000) host 5353
unfolding opened nat_translate_inbound nat_find_reverse_entry in_match ip_equal
translate_inbound-Admits_example =
    translate_inbound-Admits opened (reply_to dns 20000) 9 5353 host opened-Invariant.0 refl

nat_find_entry-eq-scan_example :
    nat_find_entry opened dns ≡ find_index (out_match dns) opened.nat_table
nat_find_entry-eq-scan_example =
    nat_find_entry-eq-scan opened dns opened-Invariant.0 opened-Invariant.1

nat_run-Invariant_init_example :
    WellFormed (nat_run (nat_init loaded) (outbound dns 7 ∷ cleanup 130000 ∷ []))
    × OneSession (nat_run (nat_init loaded) (outbound dns 7 ∷ cleanup 130000 ∷ []))
nat_run-Invariant_init_example =
    nat_run-Invariant_init loaded (outbound dns 7 ∷ cleanup 130000 ∷ []) (omega arith) (omega arith)

-- Two TCP sessions of one host whose ports 20000 and 20128 share bucket 32; the first has been idle
-- for 100 seconds, the second has just been used.
abbrev idle_session : NatEntry
idle_session = record unused_entry {
  active = true;
  protocol = 6;
  lan_ip = host;
  lan_port = 40000;
  wan_port = 20000;
  dst_ip = server;
  dst_port = 443;
  timeout_sec = 60;
}

abbrev live_session : NatEntry
live_session = record idle_session { lan_port = 40001; wan_port = 20128; last_activity = 100000 }

abbrev sharing : NatState
sharing = record loaded {
  nat_table = idle_session ∷ live_session ∷ replicate 62 unused_entry;
  nat_hash_table = set (replicate 128 255) 32 1;
  nat_outbound_hash_table = replicate 128 255;
}

abbrev live_reply : Reply
live_reply = record { protocol = 6; wan_port = 20128; src_ip = server; src_port = 443 }

nat_cleanup_strands_example :
    let s = (nat_cleanup_expired 100000 sharing).0 in
    (in_match live_reply (entry_at s 1) ≡ true)
    × (nat_find_reverse_entry s live_reply ≡ none)
    × ((nat_translate_inbound live_reply 100001 s).1 ≡ none)
unfolding is_expired in_match ip_equal nat_hash
nat_cleanup_strands_example =
    nat_cleanup_strands sharing live_reply 100000 100001 0 1 refl refl refl refl

-- Before the sweep the same reply is found.
live_reply_found : nat_find_reverse_entry sharing live_reply ≡ some 1
unfolding nat_find_reverse_entry in_match ip_equal nat_hash
live_reply_found = refl

nat_cleanup_keeps_example :
    let e = entry_at sharing 1 in
    (entry_at (nat_cleanup_expired 100000 sharing).0 1).active
    ≡ (e.active && ltb (100000 / 1000 - e.last_activity / 1000) e.timeout_sec)
nat_cleanup_keeps_example = nat_cleanup_keeps 100000 sharing 1 (omega arith) (omega arith)

-- Half a second after the wrap the session used 100 seconds after the counter's start is gone.
nat_cleanup_wrap_example : (entry_at (nat_cleanup_expired 500 sharing).0 1).active ≡ false
nat_cleanup_wrap_example = nat_cleanup_wrap 500 sharing 1 (omega arith) (omega arith) (omega arith)

abbrev crowded : NatState
crowded = record loaded {
  nat_table = replicate 64 idle_session;
  nat_hash_table = replicate 128 255;
  nat_outbound_hash_table = replicate 128 255;
}

crowded-WellFormed : WellFormed crowded
unfolding fresh
crowded-WellFormed =
    retable-WellFormed (replicate 64 idle_session) zero_stats fresh refl fresh-Invariant.0

translate_outbound_served_example :
    (port : ℕ) × ((nat_translate_outbound dns 7 fresh).1 ≡ some port)
unfolding fresh
translate_outbound_served_example =
    translate_outbound_served dns 7 63 fresh fresh-Invariant.0 (omega arith) refl
