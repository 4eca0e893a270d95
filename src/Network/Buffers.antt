-- ===== src/Network/Buffers.antt =====
-- The packet buffers of kernel/network.c.
use claude_os_20day_challeng.Base.{
  ℕ, ◌+◌, ◌≡◌, refl, subst, ◌⊎◌, Bool, true, false, not, none, some, List, get_elem?, modify,
  find_index, count_if, if◌then◌else◌, minus_one, arith, find_index-some, find_index-none,
  count_if-modify, get_elem?-modify_self, Option-cases, inl, inr,
}
use claude_os_20day_challeng.Network.{Packet, Network, alloc_packet, free_packet, get_stats}

abbrev is_used : Packet → Bool
is_used p = p.in_use

abbrev allocated : ℕ → ℕ → Network → Network
allocated now i s = record s {
  packet_buffers =
      modify s.packet_buffers i
        (λ p. record p { in_use = true; size = 0; timestamp = now; interface_id = minus_one });
}

count_used :
    (packets : List Packet) (i : ℕ) (f : Packet → Packet) (p : Packet)
    → get_elem? packets i ≡ some p
    → p.in_use ≡ false
    → (f p).in_use ≡ true
    → count_if is_used (modify packets i f) ≡ count_if is_used packets + 1
count_used packets i f p at_i unused used =
    let count = count_if-modify is_used packets i f p at_i in
    let was : ◌≡◌ {A = ℕ} (if p.in_use then 1 else 0) 0 = rw unused refl in
    let is : ◌≡◌ {A = ℕ} (if (f p).in_use then 1 else 0) 1 = rw used refl in
    omega (arith, count, was, is)

count_freed :
    (packets : List Packet) (i : ℕ) (f : Packet → Packet) (p : Packet)
    → get_elem? packets i ≡ some p
    → p.in_use ≡ true
    → (f p).in_use ≡ false
    → count_if is_used packets ≡ count_if is_used (modify packets i f) + 1
count_freed packets i f p at_i used unused =
    let count = count_if-modify is_used packets i f p at_i in
    let was : ◌≡◌ {A = ℕ} (if p.in_use then 1 else 0) 1 = rw used refl in
    let is : ◌≡◌ {A = ℕ} (if (f p).in_use then 1 else 0) 0 = rw unused refl in
    omega (arith, count, was, is)

alloc_packet-cases :
    (now : ℕ) (s : Network)
    → ((alloc_packet now s ≡ (none, s))
        × ((j : ℕ) (p : Packet) → get_elem? s.packet_buffers j ≡ some p → p.in_use ≡ true))
      ⊎ ((i : ℕ) × (p : Packet) × (get_elem? s.packet_buffers i ≡ some p)
          × (p.in_use ≡ false)
          × (alloc_packet now s ≡ (some i, allocated now i s)))
unfolding alloc_packet
alloc_packet-cases now s =
    let test : Packet → Bool = λ p. not p.in_use in
    elim (Option-cases (find_index test s.packet_buffers)) [
      | inl full ↦ inl (
        rw (full, alloc_packet) refl,
        (λ j p at_j.
            let fails = find_index-none test s.packet_buffers j p full at_j in ground arith),
      )
      | inr (i, found) ↦
          let (p, at_i, passes) = find_index-some test s.packet_buffers i found in
          inr (i, p, at_i, ground arith, rw (found, alloc_packet) refl)
    ]

allocated-freed :
    (now i : ℕ) (s : Network) (p : Packet)
    → get_elem? s.packet_buffers i ≡ some p
    → p.in_use ≡ false
    → ((p : Packet) × (get_elem? s.packet_buffers i ≡ some p) × (p.in_use ≡ false))
      × (count_if is_used (allocated now i s).packet_buffers
          ≡ count_if is_used s.packet_buffers + 1)
      × ((get_stats (free_packet (some i) (allocated now i s))).buffer_usage
          ≡ count_if is_used s.packet_buffers)
unfolding get_stats free_packet
allocated-freed now i s p at_i unused =
    let more = count_used s.packet_buffers i _ p at_i unused refl in
    let at_i' = get_elem?-modify_self s.packet_buffers i _ p at_i in
    let less =
      count_freed (allocated now i s).packet_buffers i
        (λ p. record p { in_use = false; size = 0; interface_id = minus_one }) _ at_i' refl refl in
    ((p, at_i, unused), more, omega (arith, more, less))

-- Allocating a packet takes a buffer that was free and adds one to the buffer usage, unless all buffers
-- are in use and nothing changes; freeing the buffer brings the usage back.
pub free_packet-alloc_packet :
    (now : ℕ) (s : Network)
    → let (r, s') = alloc_packet now s in
      ((r ≡ none)
        → (s' ≡ s)
          × ((j : ℕ) (p : Packet) → get_elem? s.packet_buffers j ≡ some p → p.in_use ≡ true))
      × ((i : ℕ)
          → r ≡ some i
          → ((p : Packet) × (get_elem? s.packet_buffers i ≡ some p) × (p.in_use ≡ false))
            × ((get_stats s').buffer_usage ≡ (get_stats s).buffer_usage + 1)
            × ((get_stats (free_packet (some i) s')).buffer_usage ≡ (get_stats s).buffer_usage))
unfolding get_stats free_packet
free_packet-alloc_packet now s = elim (alloc_packet-cases now s) [
  | inl (e, full) ↦ rw e ((λ _. (refl, full)), (λ i some_is. absurd (ground arith)))
  | inr (i, p, at_i, unused, e) ↦ rw e (
    (λ none_is. absurd (ground arith)),
    (λ k some_is.
        let same : i ≡ k = ground arith in
        subst
          (λ k.
            ((p : Packet) × (get_elem? s.packet_buffers k ≡ some p) × (p.in_use ≡ false))
            × (count_if is_used (allocated now i s).packet_buffers
                ≡ count_if is_used s.packet_buffers + 1)
            × ((get_stats (free_packet (some k) (allocated now i s))).buffer_usage
                ≡ count_if is_used s.packet_buffers))
          same (allocated-freed now i s p at_i unused)),
  )
]
