-- ===== src/Network.antt =====
-- The network interfaces and packet buffers of kernel/network.c. What is printed is left out.
mod Stats
mod Interfaces
mod Buffers
mod Tests
use claude_os_20day_challeng.Base.{
  ℕ, zero, suc, ◌+◌, ◌-◌, ◌/◌, ◌%◌, ◌^◌, Bool, true, false, not, ◌&&◌, ◌||◌, Option, none, some,
  List, [], ◌∷◌, ◌++◌, map, get_elem?, get_or, modify, replicate, take, length, find_index,
  count_if, ltb, leb, ◌==◌, if◌then◌else◌, add32, sub32, minus_one, is_negative,
}
use claude_os_20day_challeng.MemFs.Text.{simple_strcmp}
use claude_os_20day_challeng.MemFs.{codes}

abbrev pub max_network_interfaces : ℕ
max_network_interfaces = 4

abbrev pub max_packet_size : ℕ
max_packet_size = 1518

abbrev pub packet_buffer_count : ℕ
packet_buffer_count = 32

pub data InterfaceType : Type 0 where
  loopback ethernet virtual : InterfaceType

pub data InterfaceState : Type 0 where
  down up testing : InterfaceState

-- `network_packet_t`.
pub record Packet : Type 0 where
  pub content : List ℕ
  pub size : ℕ
  pub timestamp : ℕ
  pub in_use : Bool
  pub interface_id : ℕ

-- `network_interface_t`.
pub record Interface : Type 0 where
  pub id : ℕ
  pub name : List ℕ
  pub type : InterfaceType
  pub state : InterfaceState
  pub mac_address : List ℕ
  pub ip_address : ℕ
  pub packets_sent : ℕ
  pub packets_received : ℕ
  pub bytes_sent : ℕ
  pub bytes_received : ℕ
  pub errors : ℕ
  pub enabled : Bool

pub record Network : Type 0 where
  pub network_interfaces : List Interface
  pub packet_buffers : List Packet
  pub next_interface_id : ℕ
  pub network_initialized : Bool

-- `network_find_interface`: the slot of the interface.
unfoldable pub find_interface : ℕ → List Interface → Option ℕ
find_interface id interfaces = find_index (λ f. f.id == id) interfaces

-- `network_find_interface_by_name`.
unfoldable pub find_interface_by_name : List ℕ → List Interface → Option ℕ
find_interface_by_name name interfaces =
    find_index (λ f. not (f.id == minus_one) && simple_strcmp f.name name == 0) interfaces

abbrev pub with_interface : ℕ → (Interface → Interface) → Network → Network
with_interface i f s = record s { network_interfaces = modify s.network_interfaces i f }

-- `network_create_interface`: the id or -1.
unfoldable pub create_interface : Option (List ℕ) → InterfaceType → Network → ℕ × Network
create_interface none type s = (minus_one, s)
create_interface (some name) type s =
    if leb max_network_interfaces s.next_interface_id
    then (minus_one, s)
    else elim (find_interface minus_one s.network_interfaces) [
      | none ↦ (minus_one, s)
      | some i ↦ (
        s.next_interface_id,
        record s {
          network_interfaces = modify s.network_interfaces i (λ f. record f {
            id = s.next_interface_id;
            name = take 15 name;
            type = type;
            state = down;
            enabled = false;
          });
          next_interface_id = s.next_interface_id + 1;
        },
      )
    ]

-- `network_enable_interface`.
unfoldable pub enable_interface : ℕ → Network → ℕ × Network
enable_interface id s = elim (find_interface id s.network_interfaces) [
  | none ↦ (minus_one, s)
  | some i ↦ (0, with_interface i (λ f. record f { enabled = true; state = up }) s)
]

-- `network_disable_interface`.
unfoldable pub disable_interface : ℕ → Network → ℕ × Network
disable_interface id s = elim (find_interface id s.network_interfaces) [
  | none ↦ (minus_one, s)
  | some i ↦ (0, with_interface i (λ f. record f { enabled = false; state = down }) s)
]

-- The slots as `network_init` clears them.
unfoldable pub clear_interface : Interface → Interface
clear_interface f = record f {
  id = minus_one;
  enabled = false;
  state = down;
  packets_sent = 0;
  packets_received = 0;
  bytes_sent = 0;
  bytes_received = 0;
  errors = 0;
  name = [];
  mac_address = replicate 6 0;
}

unfoldable pub clear_packet : Packet → Packet
clear_packet p = record p {
  in_use = false;
  size = 0;
  interface_id = minus_one;
  timestamp = 0;
  content = replicate max_packet_size 0;
}

-- The addresses of a new interface, and its start.
unfoldable pub bring_up : ℕ → List ℕ → ℕ × Network → Network
bring_up ip mac (id, s) =
    if is_negative id
    then s
    else (enable_interface id
        (with_interface id (λ f. record f { ip_address = ip; mac_address = mac }) s)).1

-- `network_init`.
unfoldable pub init : Network → Network
unfolding clear_interface clear_packet bring_up
init s =
    let s0 = record s {
      network_interfaces = map clear_interface s.network_interfaces;
      packet_buffers = map clear_packet s.packet_buffers;
      next_interface_id = 0;
    } in
    let s1 =
      bring_up 0x7F000001 (0 ∷ 0 ∷ 0 ∷ 0 ∷ 0 ∷ 1 ∷ [])
        (create_interface (some (codes "lo")) loopback s0) in
    let s2 =
      bring_up 0xC0A80101 (0x52 ∷ 0x54 ∷ 0 ∷ 0x12 ∷ 0x34 ∷ 0x56 ∷ [])
        (create_interface (some (codes "eth0")) ethernet s1) in
    record s2 { network_initialized = true }

-- `network_alloc_packet` at the given uptime: the slot taken.
unfoldable pub alloc_packet : ℕ → Network → Option ℕ × Network
alloc_packet now s = elim (find_index (λ (p : Packet). not p.in_use) s.packet_buffers) [
  | none ↦ (none, s)
  | some i ↦ (
    some i,
    record s {
      packet_buffers =
          modify s.packet_buffers i
            (λ p. record p { in_use = true; size = 0; timestamp = now; interface_id = minus_one });
    },
  )
]

-- `network_free_packet` of a slot, none standing for NULL.
unfoldable pub free_packet : Option ℕ → Network → Network
free_packet none s = s
free_packet (some i) s = record s {
  packet_buffers =
      modify s.packet_buffers i
        (λ p. record p { in_use = false; size = 0; interface_id = minus_one });
}

unfoldable pub count_sent : ℕ → Interface → Interface
count_sent size f = record f {
  packets_sent = add32 f.packets_sent 1;
  bytes_sent = add32 f.bytes_sent size;
}

abbrev pub no_interface : Interface
no_interface = record {
  id = minus_one;
  name = [];
  type = loopback;
  state = down;
  mac_address = [];
  ip_address = 0;
  packets_sent = 0;
  packets_received = 0;
  bytes_sent = 0;
  bytes_received = 0;
  errors = 0;
  enabled = false;
}

-- `network_send_packet`, none standing for NULL data: only the statistics change.
unfoldable pub send_packet : ℕ → Option (List ℕ) → ℕ → Network → ℕ × Network
unfolding count_sent
send_packet id none size s = (minus_one, s)
send_packet id (some bytes) size s =
    if size == 0 || ltb max_packet_size size
    then (minus_one, s)
    else elim (find_interface id s.network_interfaces) [
      | none ↦ (minus_one, s)
      | some i ↦
          if not (get_or s.network_interfaces i no_interface).enabled
          then (minus_one, s)
          else (0, with_interface i (count_sent size) s)
    ]

-- `network_receive_packet`: the code never receives one.
unfoldable pub receive_packet : ℕ → Network → Option ℕ
receive_packet id s = none

-- `network_stats_t`.
pub record Totals : Type 0 where
  pub total_packets_sent : ℕ
  pub total_packets_received : ℕ
  pub total_bytes_sent : ℕ
  pub total_bytes_received : ℕ
  pub total_errors : ℕ
  pub active_interfaces : ℕ
  pub buffer_usage : ℕ

abbrev pub is_active : Interface → Bool
is_active f = not (f.id == minus_one) && f.enabled

-- The sum of a counter over the active interfaces, in 32 bits.
unfoldable pub total_of : (Interface → ℕ) → List Interface → ℕ
total_of counter [] = 0
total_of counter (f ∷ fs) =
    let rest = total_of counter fs in if is_active f then add32 (counter f) rest else rest

-- `network_get_stats`.
unfoldable pub get_stats : Network → Totals
get_stats s = record {
  total_packets_sent = total_of (λ f. f.packets_sent) s.network_interfaces;
  total_packets_received = total_of (λ f. f.packets_received) s.network_interfaces;
  total_bytes_sent = total_of (λ f. f.bytes_sent) s.network_interfaces;
  total_bytes_received = total_of (λ f. f.bytes_received) s.network_interfaces;
  total_errors = total_of (λ f. f.errors) s.network_interfaces;
  active_interfaces = count_if is_active s.network_interfaces;
  buffer_usage = count_if (λ (p : Packet). p.in_use) s.packet_buffers;
}

unfoldable pub count_ping : Interface → Interface
count_ping f = record f {
  packets_sent = add32 f.packets_sent 1;
  packets_received = add32 f.packets_received 1;
  bytes_sent = add32 f.bytes_sent 64;
  bytes_received = add32 f.bytes_received 64;
}

-- One round of the loop of `network_ping_simulation`, and its four rounds.
unfoldable pub ping_once : Network → Network
unfolding count_ping
ping_once s = elim (find_interface_by_name (codes "eth0") s.network_interfaces) [
  | none ↦ s
  | some i ↦ with_interface i count_ping s
]

unfoldable pub ping_simulation : Option (List ℕ) → Network → Network
ping_simulation none s = s
ping_simulation (some target) s = ping_once (ping_once (ping_once (ping_once s)))

unfoldable pub interface_type_string : InterfaceType → List ℕ
interface_type_string loopback = codes "Loopback"
interface_type_string ethernet = codes "Ethernet"
interface_type_string virtual = codes "Virtual"

unfoldable pub interface_state_string : InterfaceState → List ℕ
interface_state_string down = codes "DOWN"
interface_state_string up = codes "UP"
interface_state_string testing = codes "TESTING"

abbrev pub hex : ℕ → ℕ
hex d = if ltb d 10 then b'0' + d else b'A' + (d - 10)

-- `network_format_mac_address` into a buffer that is large enough; none if the buffer is left as it
-- was. With 18 bytes or more no test on the position fails.
unfoldable pub mac_text : List ℕ → List ℕ
mac_text [] = []
mac_text (b ∷ []) = hex (b / 16 % 16) ∷ hex (b % 16) ∷ []
mac_text (b ∷ c ∷ bytes) = hex (b / 16 % 16) ∷ hex (b % 16) ∷ b':' ∷ mac_text (c ∷ bytes)

unfoldable pub format_mac_address : List ℕ → ℕ → Option (List ℕ)
format_mac_address mac size = if ltb size 18 then none else some (mac_text mac)
