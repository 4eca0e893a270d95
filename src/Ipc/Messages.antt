-- ===== src/Ipc/Messages.antt =====
-- `ipc_send_message`, `ipc_receive_message` and `ipc_message_count` of kernel/ipc.c.
use claude_os_20day_challeng.Base.{
  ℕ, zero, suc, ◌+◌, ◌-◌, ◌<◌, ◌≤◌, ◌≡◌, ◌≢◌, ◌⊎◌, inl, inr, refl, sym, ◌∙◌, ap, true, false, ◌||◌,
  some, Option-cases, Bool-cases, List, [], ◌∷◌, ◌++◌, length, get_elem?, get_elem?-modify_self,
  get_elem?-modify_ne, get_or, get_or-of_get_elem?, modify, take, find_index, find_index-lt,
  find_index-some, find_index-total, count_if-modify, count_if-zero, ltb, ◌==◌, if◌then◌else◌,
  minus_one, ℕ_discrete, arith,
}
use claude_os_20day_challeng.Process
use claude_os_20day_challeng.Ipc.{
  Ipc, Message, empty_message, max_messages, max_message_size, overwrite, unused, own_pid, post,
  send_message, is_for, clear, delivered, receive_message, waits_for, message_count,
}

take-overwrite :
    (n : ℕ) (bytes old : List ℕ)
    → n ≤ length bytes
    → n ≤ length old
    → take n (overwrite (take n bytes) old) ≡ take n bytes
unfolding overwrite
take-overwrite zero bytes old h k = refl
take-overwrite (suc n) [] old h k = absurd (omega arith)
take-overwrite (suc n) (b ∷ bytes) [] h k = absurd (omega arith)
take-overwrite (suc n) (b ∷ bytes) (c ∷ old) h k =
    ap (◌∷◌ b) (take-overwrite n bytes old (omega arith) (omega arith))

-- A message that was sent: the guards hold, and the first unused slot takes it.
record Sent (now receiver : ℕ) (bytes : List ℕ) (size : ℕ) (s : Ipc) (i : ℕ) (s' : Ipc)
    : Type 0 where
  fits : (0 < size) × (size ≤ max_message_size)
  slot : find_index unused s.message_pool ≡ some i
  pool : s' ≡ record s {
    message_pool = modify s.message_pool i (post (own_pid s) receiver size bytes now);
  }

send_message-Sent :
    (now receiver : ℕ) (bytes : List ℕ) (size : ℕ) (s : Ipc) (i : ℕ) (s' : Ipc)
    → send_message now receiver (some bytes) size s ≡ (i, s')
    → i ≢ minus_one
    → Sent now receiver bytes size s i s'
unfolding send_message
send_message-Sent now receiver bytes size s i s' h ok =
    elim (Bool-cases (size == 0 || ltb max_message_size size)) [
      | inl bad ↦ absurd (ok (ground (arith, bad)))
      | inr good ↦ elim (Option-cases (Process.find s.procs.process_table receiver)) [
        | inl e ↦ absurd (ok (ground (arith, good, e)))
        | inr (r, e) ↦ elim (Option-cases (find_index unused s.message_pool)) [
          | inl full ↦ absurd (ok (ground (arith, good, e, full)))
          | inr (k, found) ↦
              let same : k ≡ i = ground (arith, good, e, found) in
              record {
                fits = ground (arith, good);
                slot = rw found (ap some same);
                pool = ground (arith, good, e, found, same);
              }
        ]
      ]
    ]

send_message-fails :
    (now receiver : ℕ) (bytes : List ℕ) (size : ℕ) (s : Ipc)
    → length s.message_pool ≡ max_messages
    → (send_message now receiver (some bytes) size s).0 ≡ minus_one
    → send_message now receiver (some bytes) size s ≡ (minus_one, s)
unfolding send_message
send_message-fails now receiver bytes size s sixteen h =
    elim (Bool-cases (size == 0 || ltb max_message_size size)) [
      | inl bad ↦ ground (arith, bad)
      | inr good ↦ elim (Option-cases (Process.find s.procs.process_table receiver)) [
        | inl e ↦ ground (arith, good, e)
        | inr (r, e) ↦ elim (Option-cases (find_index unused s.message_pool)) [
          | inl full ↦ ground (arith, good, e, full)
          | inr (k, found) ↦
              let small = find_index-lt unused s.message_pool k found in
              let same : k ≡ minus_one = ground (arith, good, e, found) in absurd (omega arith)
        ]
      ]
    ]

-- A message that is sent adds one to the count of its receiver, and nothing to any other; a send that
-- fails changes nothing.
pub message_count-send_message :
    (now receiver : ℕ) (bytes : List ℕ) (size : ℕ) (s : Ipc) (pid : ℕ)
    → length s.message_pool ≡ max_messages
    → let r = send_message now receiver (some bytes) size s in
      ((r.0 ≡ minus_one) → r ≡ (minus_one, s))
      × ((r.0 ≢ minus_one)
          → message_count pid r.1 ≡ message_count pid s + (if receiver == pid then 1 else 0))
unfolding message_count post
message_count-send_message now receiver bytes size s pid sixteen = (fails, succeeds)
  where
    r : ℕ × Ipc
    r = send_message now receiver (some bytes) size s

    fails : r.0 ≡ minus_one → r ≡ (minus_one, s)
    fails h = send_message-fails now receiver bytes size s sixteen h

    succeeds :
        r.0 ≢ minus_one
        → message_count pid r.1 ≡ message_count pid s + (if receiver == pid then 1 else 0)
    succeeds ok =
        let sent = send_message-Sent now receiver bytes size s r.0 r.1 refl ok in
        let (m, at, free) = find_index-some unused s.message_pool r.0 sent.slot in
        let put = post (own_pid s) receiver size bytes now in
        ground (arith, sent.pool, free, count_if-modify (waits_for pid) s.message_pool r.0 put m at)

-- A slot that a search for the receiver finds holds a message for it.
no_match :
    (receiver sender : ℕ) (s : Ipc) (j : ℕ) (m : Message)
    → message_count receiver s ≡ 0
    → get_elem? s.message_pool j ≡ some m
    → is_for receiver sender m ≡ true
    → ⊥
unfolding message_count
no_match receiver sender s j m none_waits at is =
    let quiet = count_if-zero (waits_for receiver) s.message_pool j m none_waits at in
    ground (arith, quiet)

receive_message-found :
    (sender buffer_size : ℕ) (t : Ipc) (i : ℕ) (m : Message)
    → buffer_size ≢ 0
    → find_index (is_for (own_pid t) sender) t.message_pool ≡ some i
    → get_or t.message_pool i empty_message ≡ m
    → receive_message sender buffer_size t ≡ (
      m.sender_pid,
      delivered buffer_size m,
      record t { message_pool = modify t.message_pool i clear },
    )
unfolding receive_message
receive_message-found sender buffer_size t i m room found slot =
    let some_room : (buffer_size == 0) ≡ false = ground arith in
    rw (receive_message, some_room, found, slot) refl

delivered-all :
    (buffer_size : ℕ) (m : Message) (bytes : List ℕ)
    → m.message_size < buffer_size
    → take m.message_size m.content ≡ bytes
    → delivered buffer_size m ≡ bytes ++ 0 ∷ []
delivered-all buffer_size m bytes room e =
    let all : ltb (buffer_size - 1) m.message_size ≡ false = ground arith in rw (all, e) refl

-- What is sent is received: if no other message waits for the receiver, then a receiver that asks for
-- any sender or for this one, with room for the bytes and a NUL, gets exactly the bytes that were
-- sent and the sender's pid, and the slot is given back.
pub receive_message-send_message :
    (now receiver sender : ℕ) (bytes : List ℕ) (size : ℕ) (s : Ipc) (i : ℕ) (s' t : Ipc)
    (buffer_size : ℕ)
    → ((m : Message) → get_elem? s.message_pool i ≡ some m → length m.content ≡ max_message_size)
    → size ≤ length bytes
    → message_count receiver s ≡ 0
    → send_message now receiver (some bytes) size s ≡ (i, s')
    → i ≢ minus_one
    → t.message_pool ≡ s'.message_pool
    → own_pid t ≡ receiver
    → (sender ≡ minus_one) ⊎ (sender ≡ own_pid s)
    → size < buffer_size
    → receive_message sender buffer_size t ≡ (
      own_pid s,
      take size bytes ++ 0 ∷ [],
      record t { message_pool = modify t.message_pool i clear },
    )
unfolding receive_message post
receive_message-send_message now receiver sender bytes size s i s' t buffer_size sized given quiet h
      ok pool me from room =
    let sent = send_message-Sent now receiver bytes size s i s' h ok in
    let (m, at, free) = find_index-some unused s.message_pool i sent.slot in
    let put = post (own_pid s) receiver size bytes now in
    let new : t.message_pool ≡ modify s.message_pool i put =
      pool ∙ ap (λ (x : Ipc). x.message_pool) sent.pool in
    let here : get_elem? t.message_pool i ≡ some (put m) =
      rw new (get_elem?-modify_self s.message_pool i put m at) in
    let (k, found, le) =
      find_index-total (is_for receiver sender) t.message_pool i (put m) here (ground arith) in
    let (b, at', is) = find_index-some (is_for receiver sender) t.message_pool k found in
    let first : k ≡ i = elim (ℕ_discrete i k) [
      | yes e ↦ sym e
      | no ne ↦
          let old : get_elem? s.message_pool k ≡ some b =
            sym (get_elem?-modify_ne s.message_pool i k put ne) ∙ (rw (← new) at') in
          absurd (no_match receiver sender s k b quiet old is)
    ] in
    let content =
      take-overwrite size bytes m.content given (omega (arith, sent.fits, sized m at)) in
    let slot = get_or-of_get_elem? t.message_pool i (put m) empty_message here in
    let mine : find_index (is_for (own_pid t) sender) t.message_pool ≡ some i =
      rw me (found ∙ ap some first) in
    receive_message-found sender buffer_size t i (put m) (omega arith) mine slot
    ∙ ap
        (λ (out : List ℕ).
          (own_pid s, out, record t { message_pool = modify t.message_pool i clear }))
        (delivered-all buffer_size (put m) (take size bytes) room content)
