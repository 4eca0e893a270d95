-- ===== src/Network/Tests.antt =====
-- Examples for kernel/network.c.
use claude_os_20day_challeng.Base.{
  ℕ, zero, suc, ◌≡◌, refl, false, some, List, [], ◌∷◌, get_elem?, find_index, count_if, add32,
  minus_one, arith,
}
use claude_os_20day_challeng.MemFs.{codes}
use claude_os_20day_challeng.MemFs.Text.{simple_strcmp}
use claude_os_20day_challeng.Network.{
  Interface, Packet, Network, loopback, no_interface, find_interface, find_interface_by_name,
  create_interface, enable_interface, send_packet, get_stats, init, clear_interface, clear_packet,
  bring_up, ping_simulation, ping_once, count_ping, total_of, format_mac_address, mac_text,
}
use claude_os_20day_challeng.Network.Interfaces.{Ids, create_interface-Ids}
use claude_os_20day_challeng.Network.Stats.{get_stats-send_packet}

abbrev free_buffer : Packet
free_buffer = record {
  content = [];
  size = 0;
  timestamp = 0;
  in_use = false;
  interface_id = minus_one;
}

abbrev fresh : Network
fresh = record {
  network_interfaces = no_interface ∷ no_interface ∷ no_interface ∷ no_interface ∷ [];
  packet_buffers = free_buffer ∷ free_buffer ∷ [];
  next_interface_id = 0;
  network_initialized = false;
}

fresh-left :
    (i : ℕ) (f : Interface) → get_elem? fresh.network_interfaces i ≡ some f → f.id ≡ minus_one
fresh-left zero f e = ground arith
fresh-left (suc zero) f e = ground arith
fresh-left (suc (suc zero)) f e = ground arith
fresh-left (suc (suc (suc zero))) f e = ground arith
fresh-left (suc (suc (suc (suc i)))) f e = cc

fresh-Ids : Ids fresh
fresh-Ids = record {
  four_slots = refl;
  next_le = omega arith;
  taken = λ i f e lt. absurd (omega arith);
  left = λ i f e le. fresh-left i f e;
}

abbrev lo : List ℕ
lo = codes "lo"

abbrev with_lo : Network
with_lo = (create_interface (some lo) loopback fresh).1

with_lo-Ids : Ids with_lo
with_lo-Ids = ((create_interface-Ids lo loopback fresh fresh-Ids).0 (omega arith)).1

abbrev lo_up : Network
lo_up = (enable_interface 0 with_lo).1

get_stats-send_packet_example :
    let (r, s') = send_packet 0 (some (codes "abc")) 3 lo_up in
    (r ≡ 0)
    × (get_stats s' ≡ record (get_stats lo_up) {
      total_packets_sent = add32 (get_stats lo_up).total_packets_sent 1;
      total_bytes_sent = add32 (get_stats lo_up).total_bytes_sent 3;
    })
unfolding create_interface enable_interface find_interface find_index
get_stats-send_packet_example =
    get_stats-send_packet 0 3 0 (codes "abc") lo_up (λ e. omega arith) refl refl (omega arith)
      (omega arith)

-- The id -1 finds a slot that no interface has, and enabling it succeeds.
enable_unused : (enable_interface minus_one fresh).0 ≡ 0
unfolding enable_interface find_interface find_index
enable_unused = refl

-- After the start there are two interfaces that are up.
init_actives : (get_stats (init fresh)).active_interfaces ≡ 2
unfolding init clear_interface clear_packet bring_up create_interface enable_interface
    find_interface find_index get_stats count_if
init_actives = refl

-- A ping counts its four packets of 64 bytes at eth0.
ping_counts : (get_stats (ping_simulation (some lo) (init fresh))).total_bytes_received ≡ 256
unfolding init clear_interface clear_packet bring_up create_interface enable_interface
    find_interface find_interface_by_name find_index simple_strcmp get_stats total_of
    ping_simulation ping_once count_ping
ping_counts = refl

mac_example :
    format_mac_address (0x52 ∷ 0x54 ∷ 0 ∷ 0x12 ∷ 0x34 ∷ 0x56 ∷ []) 18
    ≡ some (codes "52:54:00:12:34:56")
unfolding format_mac_address mac_text
mac_example = refl
