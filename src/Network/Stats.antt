-- ===== src/Network/Stats.antt =====
-- The statistics of kernel/network.c.
use claude_os_20day_challeng.Base.{
  ℕ, zero, suc, ◌+◌, ◌<◌, ◌≤◌, ◌≡◌, ◌≢◌, refl, sym, subst, true, some, List, [], ◌∷◌, get_elem?,
  get_or, modify, ◌==◌, add32, minus_one, arith, find_index-some, get_or-of_get_elem?, Bool-cases,
  inl, inr, if◌then◌else◌, ap, count_if,
}
use claude_os_20day_challeng.Network.{
  Interface, Network, find_interface, send_packet, count_sent, no_interface, is_active, total_of,
  get_stats, max_packet_size,
}
use claude_os_20day_challeng.Network.Interfaces.{send_packet-on}

grow_head : (c c' rest d : ℕ) → c' ≡ add32 c d → add32 c' rest ≡ add32 (add32 c rest) d
grow_head c c' rest d grown = omega arith

grow_rest : (c rest rest' d : ℕ) → rest' ≡ add32 rest d → add32 c rest' ≡ add32 (add32 c rest) d
grow_rest c rest rest' d grown = omega arith

-- A counter of an active interface that grows by `d` makes the total grow by `d`.
total_of-modify :
    (counter : Interface → ℕ) (d : ℕ) (xs : List Interface) (i : ℕ) (f : Interface → Interface)
    (a : Interface)
    → get_elem? xs i ≡ some a
    → is_active a ≡ true
    → is_active (f a) ≡ true
    → counter (f a) ≡ add32 (counter a) d
    → total_of counter (modify xs i f) ≡ add32 (total_of counter xs) d
unfolding total_of
total_of-modify counter d [] i f a at_i on on' grown = cc
total_of-modify counter d (x ∷ xs) zero f a at_i on on' grown =
    let same : x ≡ a = ground arith in
    subst (λ x. total_of counter (f x ∷ xs) ≡ add32 (total_of counter (x ∷ xs)) d) (sym same)
      (rw (on, on') (grow_head (counter a) (counter (f a)) (total_of counter xs) d grown))
total_of-modify counter d (x ∷ xs) (suc i) f a at_i on on' grown =
    let rest = total_of-modify counter d xs i f a at_i on on' grown in
    elim (Bool-cases (is_active x)) [
      | inl t ↦
          rw t
            (grow_rest (counter x) (total_of counter xs) (total_of counter (modify xs i f)) d rest)
      | inr n ↦ rw n rest
    ]

-- A counter that a change leaves as it is keeps its total.
total_of-modify_same :
    (counter : Interface → ℕ) (xs : List Interface) (i : ℕ) (f : Interface → Interface)
    → ((a : Interface) → is_active (f a) ≡ is_active a)
    → ((a : Interface) → counter (f a) ≡ counter a)
    → total_of counter (modify xs i f) ≡ total_of counter xs
unfolding total_of
total_of-modify_same counter [] i f on same = refl
total_of-modify_same counter (x ∷ xs) zero f on same = rw (on x, same x) refl
total_of-modify_same counter (x ∷ xs) (suc i) f on same =
    ap (λ rest. if is_active x then add32 (counter x) rest else rest)
      (total_of-modify_same counter xs i f on same)

active-modify_same :
    (xs : List Interface) (i : ℕ) (f : Interface → Interface)
    → ((a : Interface) → is_active (f a) ≡ is_active a)
    → count_if is_active (modify xs i f) ≡ count_if is_active xs
unfolding count_if
active-modify_same [] i f on = refl
active-modify_same (x ∷ xs) zero f on = rw (on x) refl
active-modify_same (x ∷ xs) (suc i) f on =
    ap (λ rest. (if is_active x then 1 else 0) + rest) (active-modify_same xs i f on)

-- A packet of at most 1518 bytes that is sent over an enabled interface is counted: one packet more
-- and its bytes more in the totals, in 32 bits, and each of the other totals is unchanged: the packets
-- and bytes received, the errors, the active interfaces and the buffers in use.
pub get_stats-send_packet :
    (id size i : ℕ) (bytes : List ℕ) (s : Network)
    → id ≢ minus_one
    → find_interface id s.network_interfaces ≡ some i
    → (get_or s.network_interfaces i no_interface).enabled ≡ true
    → 0 < size
    → size ≤ max_packet_size
    → let (r, s') = send_packet id (some bytes) size s in
      (r ≡ 0)
      × (get_stats s' ≡ record (get_stats s) {
        total_packets_sent = add32 (get_stats s).total_packets_sent 1;
        total_bytes_sent = add32 (get_stats s).total_bytes_sent size;
      })
unfolding get_stats find_interface count_sent
get_stats-send_packet id size i bytes s real found on pos fits =
    let xs = s.network_interfaces in
    let (a, at_i, test) = find_index-some (λ f. f.id == id) xs i found in
    let is = get_or-of_get_elem? xs i a no_interface at_i in
    let a_on = subst (λ (f : Interface). f.enabled ≡ true) is on in
    let active : is_active a ≡ true = ground arith in
    let f = count_sent size in
    rw (send_packet-on id size i bytes s found on pos fits) (
      refl,
      rw
          (
            total_of-modify (λ x. x.packets_sent) 1 xs i f a at_i active active refl,
            total_of-modify (λ x. x.bytes_sent) size xs i f a at_i active active refl,
            total_of-modify_same (λ x. x.packets_received) xs i f (λ x. refl) (λ x. refl),
            total_of-modify_same (λ x. x.bytes_received) xs i f (λ x. refl) (λ x. refl),
            total_of-modify_same (λ x. x.errors) xs i f (λ x. refl) (λ x. refl),
            active-modify_same xs i f (λ x. refl),
          )
          refl,
    )
