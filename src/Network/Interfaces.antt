-- ===== src/Network/Interfaces.antt =====
-- The ids of the interfaces of kernel/network.c, and what it takes to send.
use claude_os_20day_challeng.Base.{
  ℕ, ◌+◌, ◌<◌, ◌≤◌, ◌≡◌, refl, ap, ◌∙◌, Bool, true, false, ◌||◌, some, List, get_elem?, get_or,
  modify, take, length, ltb, leb, ◌==◌, minus_one, arith, find_index-some, find_index-modify,
  find_index-total, get_elem?-modify, get_elem?-modify_self, get_elem?-of_lt, get_or-modify_self,
  length-modify, inl, inr,
}
use claude_os_20day_challeng.Network.{
  Interface, InterfaceType, down, up, count_sent, Network, find_interface, create_interface,
  enable_interface, disable_interface, with_interface, send_packet, no_interface,
  max_network_interfaces, max_packet_size,
}

-- The ids are given in the order of the slots, and the slots that are left have the id -1.
pub record Ids (s : Network) : Type 0 where
  pub four_slots : length s.network_interfaces ≡ max_network_interfaces
  pub next_le : s.next_interface_id ≤ max_network_interfaces
  pub taken :
      (i : ℕ) (f : Interface)
      → get_elem? s.network_interfaces i ≡ some f
      → i < s.next_interface_id
      → f.id ≡ i
  pub left :
      (i : ℕ) (f : Interface)
      → get_elem? s.network_interfaces i ≡ some f
      → s.next_interface_id ≤ i
      → f.id ≡ minus_one

-- An id that was given finds its slot.
pub find_interface-Ids :
    (id : ℕ) (s : Network)
    → Ids s
    → id < s.next_interface_id
    → find_interface id s.network_interfaces ≡ some id
unfolding find_interface
find_interface-Ids id s ids given =
    let (f, at_id) =
      get_elem?-of_lt s.network_interfaces id (omega (arith, ids.four_slots, ids.next_le)) in
    let is = ids.taken id f at_id given in
    let (i, found, le) =
      find_index-total (λ g. g.id == id) s.network_interfaces id f at_id (ground arith) in
    let (g, at_i, test) = find_index-some (λ g. g.id == id) s.network_interfaces i found in
    let g_is = ids.taken i g at_i (omega arith) in
    let same : i ≡ id = ground arith in found ∙ ap some same

-- The slot that is used next.
find_interface-next :
    (s : Network)
    → Ids s
    → s.next_interface_id < max_network_interfaces
    → find_interface minus_one s.network_interfaces ≡ some s.next_interface_id
unfolding find_interface
find_interface-next s ids room =
    let next = s.next_interface_id in
    let (f, at_next) = get_elem?-of_lt s.network_interfaces next (omega (arith, ids.four_slots)) in
    let is = ids.left next f at_next (omega arith) in
    let (i, found, le) =
      find_index-total (λ g. g.id == minus_one) s.network_interfaces next f at_next
        (ground arith) in
    let (g, at_i, test) = find_index-some (λ g. g.id == minus_one) s.network_interfaces i found in
    let g_is : i < next → g.id ≡ i = ids.taken i g at_i in
    let same : i ≡ next = ground arith in found ∙ ap some same

abbrev new_interface : List ℕ → InterfaceType → ℕ → Interface → Interface
new_interface name type id f = record f {
  id = id;
  name = take 15 name;
  type = type;
  state = down;
  enabled = false;
}

abbrev created : List ℕ → InterfaceType → Network → Network
created name type s = record s {
  network_interfaces =
      modify s.network_interfaces s.next_interface_id (new_interface name type s.next_interface_id);
  next_interface_id = s.next_interface_id + 1;
}

create_interface-room :
    (name : List ℕ) (type : InterfaceType) (s : Network)
    → Ids s
    → s.next_interface_id < max_network_interfaces
    → create_interface (some name) type s ≡ (s.next_interface_id, created name type s)
unfolding create_interface
create_interface-room name type s ids room =
    let more : leb max_network_interfaces s.next_interface_id ≡ false = ground arith in
    rw (more, find_interface-next s ids room, create_interface) refl

created-Ids :
    (name : List ℕ) (type : InterfaceType) (s : Network)
    → Ids s
    → s.next_interface_id < max_network_interfaces
    → Ids (created name type s)
created-Ids name type s ids room = record {
  four_slots = length-modify s.network_interfaces s.next_interface_id _ ∙ ids.four_slots;
  next_le = omega arith;
  taken = λ i f at_i lt.
      elim (get_elem?-modify s.network_interfaces s.next_interface_id i _ f at_i) [
        | inl (here, a, a_at, is) ↦ ap (λ (g : Interface). g.id) is ∙ here
        | inr (apart, f_at) ↦ ids.taken i f f_at (omega arith)
      ];
  left = λ i f at_i le.
      elim (get_elem?-modify s.network_interfaces s.next_interface_id i _ f at_i) [
        | inl (here, a, a_at, is) ↦ absurd (omega arith)
        | inr (apart, f_at) ↦ ids.left i f f_at (omega arith)
      ];
}

create_interface-full :
    (name : List ℕ) (type : InterfaceType) (s : Network)
    → max_network_interfaces ≤ s.next_interface_id
    → let (r, s') = create_interface (some name) type s in (r ≡ minus_one) × (s' ≡ s)
unfolding create_interface
create_interface-full name type s full =
    let no_more : leb max_network_interfaces s.next_interface_id ≡ true = ground arith in
    rw (no_more, create_interface) (refl, refl)

-- While there is room, creating an interface returns the next id and keeps the ids in order, and the
-- interface is then found by its id, and is down. With four interfaces it returns -1 and changes
-- nothing.
pub create_interface-Ids :
    (name : List ℕ) (type : InterfaceType) (s : Network)
    → Ids s
    → let (r, s') = create_interface (some name) type s in
      ((s.next_interface_id < max_network_interfaces)
        → (r ≡ s.next_interface_id)
          × Ids s'
          × (find_interface r s'.network_interfaces ≡ some r)
          × ((f : Interface) × (get_elem? s'.network_interfaces r ≡ some f) × (f.enabled ≡ false)))
      × ((max_network_interfaces ≤ s.next_interface_id) → (r ≡ minus_one) × (s' ≡ s))
create_interface-Ids name type s ids = (
  (λ room.
      let ids' = created-Ids name type s ids room in
      let (f, at_next) =
        get_elem?-of_lt s.network_interfaces s.next_interface_id (omega (arith, ids.four_slots)) in
      rw (create_interface-room name type s ids room) (
        refl,
        ids',
        find_interface-Ids s.next_interface_id (created name type s) ids' (omega arith),
        (_, get_elem?-modify_self s.network_interfaces s.next_interface_id _ f at_next, refl),
      )),
  (λ full. create_interface-full name type s full),
)

-- What a send does, by whether the interface found is enabled.
pub send_packet-on :
    (id size i : ℕ) (bytes : List ℕ) (s : Network)
    → find_interface id s.network_interfaces ≡ some i
    → (get_or s.network_interfaces i no_interface).enabled ≡ true
    → 0 < size
    → size ≤ max_packet_size
    → send_packet id (some bytes) size s ≡ (0, with_interface i (count_sent size) s)
unfolding send_packet
send_packet-on id size i bytes s found on pos fits =
    let sized : (size == 0 || ltb max_packet_size size) ≡ false = ground arith in
    rw (sized, found, on, send_packet) refl

send_packet-off :
    (id size i : ℕ) (bytes : List ℕ) (s : Network)
    → find_interface id s.network_interfaces ≡ some i
    → (get_or s.network_interfaces i no_interface).enabled ≡ false
    → 0 < size
    → size ≤ max_packet_size
    → send_packet id (some bytes) size s ≡ (minus_one, s)
unfolding send_packet
send_packet-off id size i bytes s found off pos fits =
    let sized : (size == 0 || ltb max_packet_size size) ≡ false = ground arith in
    rw (sized, found, off, send_packet) refl

-- Whether a packet of a size that fits can be sent: after the interface is enabled the send returns 0,
-- after it is disabled -1.
pub send_packet-enable_interface :
    (id size : ℕ) (bytes : List ℕ) (s : Network)
    → Ids s
    → id < s.next_interface_id
    → 0 < size
    → size ≤ max_packet_size
    → ((send_packet id (some bytes) size (enable_interface id s).1).0 ≡ 0)
      × ((send_packet id (some bytes) size (disable_interface id s).1).0 ≡ minus_one)
unfolding enable_interface disable_interface find_interface
send_packet-enable_interface id size bytes s ids given pos fits =
    let found = find_interface-Ids id s ids given in
    let lt : id < length s.network_interfaces = omega (arith, ids.four_slots, ids.next_le) in
    let test : Interface → Bool = λ f. f.id == id in
    let on : Interface → Interface = λ f. record f { enabled = true; state = up } in
    let off : Interface → Interface = λ f. record f { enabled = false; state = down } in
    let is_on =
      ap (λ (f : Interface). f.enabled)
        (get_or-modify_self s.network_interfaces id on no_interface lt) in
    let is_off =
      ap (λ (f : Interface). f.enabled)
        (get_or-modify_self s.network_interfaces id off no_interface lt) in
    let found_on = find_index-modify test s.network_interfaces id on (λ f. refl) ∙ found in
    let found_off = find_index-modify test s.network_interfaces id off (λ f. refl) ∙ found in
    (
      rw (found, enable_interface)
          (ap (λ r. r.0)
            (send_packet-on id size id bytes (with_interface id on s) found_on is_on pos fits)),
      rw (found, disable_interface)
          (ap (λ r. r.0)
            (send_packet-off id size id bytes (with_interface id off s) found_off is_off pos fits)),
    )
