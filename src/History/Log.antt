-- ===== src/History/Log.antt =====
-- `add_to_history` of kernel/kernel.c, and the list of the commands to be remembered.
use claude_os_20day_challeng.Base.{
  ℕ, zero, suc, ◌+◌, ◌-◌, ◌%◌, ◌^◌, ◌<◌, ◌≤◌, ◌≡◌, refl, sym, ap, subst, ◌∙◌, Bool, true, false,
  not, ◌&&◌, List, [], ◌∷◌, take, length, get_or, ltb, ◌==◌, if◌then◌else◌, add32, sub32,
  is_negative, Bool-cases, inl, inr, arith,
}
use claude_os_20day_challeng.History.{
  History, history_size, history_max_len, char_value, shell_strcmp, add_to_history,
}

-- A C string: no byte is 0.
abbrev pub is_text : List ℕ → Bool
is_text [] = true
is_text (c ∷ cs) = (ltb 0 c && ltb c 256) && is_text cs

-- The two strings are equal.
abbrev pub same : List ℕ → List ℕ → Bool
same [] [] = true
same [] (y ∷ ys) = false
same (x ∷ xs) [] = false
same (x ∷ xs) (y ∷ ys) = x == y && same xs ys

text_parts :
    (c : ℕ) (cs : List ℕ) → is_text (c ∷ cs) ≡ true → (0 < c) × (c < 256) × (is_text cs ≡ true)
text_parts c cs t = (ground arith, ground arith, ground arith)

not_zero : (c : ℕ) → 0 < c → c < 256 → (char_value c == 0) ≡ false
not_zero c some_byte low = ground arith

not_zero' : (c : ℕ) → 0 < c → c < 256 → (sub32 0 (char_value c) == 0) ≡ false
not_zero' c some_byte low = ground arith

differs :
    (x y : ℕ)
    → x < 256
    → y < 256
    → (x == y) ≡ false
    → (sub32 (char_value x) (char_value y) == 0) ≡ false
differs x y low low' e = ground arith

-- `shell_strcmp` is 0 on equal strings only.
pub shell_strcmp-same :
    (xs ys : List ℕ)
    → is_text xs ≡ true
    → is_text ys ≡ true
    → (shell_strcmp xs ys == 0) ≡ same xs ys
unfolding shell_strcmp
shell_strcmp-same [] [] t t' = refl
shell_strcmp-same [] (y ∷ ys) t t' = let p = text_parts y ys t' in not_zero' y p.0 p.1
shell_strcmp-same (x ∷ xs) [] t t' = let p = text_parts x xs t in not_zero x p.0 p.1
shell_strcmp-same (x ∷ xs) (y ∷ ys) t t' =
    let p = text_parts x xs t in
    let q = text_parts y ys t' in
    elim (Bool-cases (x == y)) [
      | inl here ↦ rw here (shell_strcmp-same xs ys (p.2) (q.2))
      | inr apart ↦ rw apart (differs x y p.1 q.1 apart)
    ]

-- INT_MAX.
abbrev pub int_max : ℕ
int_max = 2 ^ 31 - 1

-- What the slots hold: `log` has the commands that were kept, the newest first.
pub record Holds (s : History) (log : List (List ℕ)) : Type 0 where
  pub count : s.history_count ≡ length log
  pub entries :
      (k : ℕ)
      → k < history_size
      → k < length log
      → s.command_history ((s.history_count - 1 - k) % history_size) ≡ get_or log k []
  pub texts : (k : ℕ) → k < length log → is_text (get_or log k []) ≡ true

-- What is to be remembered: a command that is not empty and not the last one, cut to 255 bytes.
abbrev pub remember : List ℕ → List (List ℕ) → List (List ℕ)
remember [] log = log
remember (c ∷ cs) [] = take history_max_len (c ∷ cs) ∷ []
remember (c ∷ cs) (last ∷ log) =
    if same last (c ∷ cs) then last ∷ log else take history_max_len (c ∷ cs) ∷ last ∷ log

pub take-is_text : (n : ℕ) (cs : List ℕ) → is_text cs ≡ true → is_text (take n cs) ≡ true
take-is_text zero cs t = refl
take-is_text (suc n) [] t = refl
take-is_text (suc n) (c ∷ cs) t =
    let rest = take-is_text n cs (text_parts c cs t).2 in ground (arith, rest)

new_slot : (count : ℕ) → ((count + 1 - 1 - 0) % 10 == count % 10) ≡ true
new_slot count = ground arith

old_slot :
    (count k : ℕ)
    → suc k < 10
    → suc k ≤ count
    → (((count + 1 - 1 - suc k) % 10 == count % 10) ≡ false)
      × (count + 1 - 1 - suc k ≡ count - 1 - k)
old_slot count k low inside = (ground arith, omega arith)

-- The new entry, and the entries that stay.
stored-entries :
    (s : History) (log : List (List ℕ)) (entry : List ℕ) (k : ℕ)
    → Holds s log
    → k < history_size
    → k < length (entry ∷ log)
    → (if (s.history_count + 1 - 1 - k) % 10 == s.history_count % 10
        then entry
        else s.command_history ((s.history_count + 1 - 1 - k) % 10))
      ≡ get_or (entry ∷ log) k []
stored-entries s log entry zero holds low inside = rw (new_slot s.history_count) refl
stored-entries s log entry (suc k) holds low inside =
    let old = old_slot s.history_count k low (omega (arith, holds.count)) in
    rw (old.0)
      (ap (λ n. s.command_history (n % 10)) (old.1) ∙ holds.entries k (omega arith) (omega arith))

stored-texts :
    (log : List (List ℕ)) (entry : List ℕ) (k : ℕ)
    → ((j : ℕ) → j < length log → is_text (get_or log j []) ≡ true)
    → is_text entry ≡ true
    → k < length (entry ∷ log)
    → is_text (get_or (entry ∷ log) k []) ≡ true
stored-texts log entry zero texts text inside = text
stored-texts log entry (suc k) texts text inside = texts k (omega arith)

abbrev pub store : List ℕ → History → History
store entry s = record s {
  command_history = λ i. if i == s.history_count % 10 then entry else s.command_history i;
  history_count = s.history_count + 1;
}

store-Holds :
    (s : History) (log : List (List ℕ)) (entry : List ℕ)
    → Holds s log
    → is_text entry ≡ true
    → Holds (store entry s) (entry ∷ log)
store-Holds s log entry holds text = record {
  count = omega (arith, holds.count);
  entries = λ k low inside. stored-entries s log entry k holds low inside;
  texts = λ k inside. stored-texts log entry k holds.texts text inside;
}

add_first :
    (s : History) (c : ℕ) (cs : List ℕ)
    → Holds s []
    → add_to_history (c ∷ cs) s ≡ store (take 255 (c ∷ cs)) s
unfolding add_to_history
add_first s c cs holds = rw (holds.count) refl

no_step : (n : ℕ) → n ≡ n - 0
no_step n = omega arith

add_next :
    (s : History) (c : ℕ) (cs last : List ℕ) (log : List (List ℕ))
    → Holds s (last ∷ log)
    → is_text (c ∷ cs) ≡ true
    → length (last ∷ log) < int_max
    → add_to_history (c ∷ cs) s ≡ (if same last (c ∷ cs) then s else store (take 255 (c ∷ cs)) s)
unfolding add_to_history
add_next s c cs last log holds text room =
    let some_entry : (not (is_negative s.history_count) && ltb 0 s.history_count) ≡ true =
      ground (arith, holds.count) in
    let more : add32 s.history_count 1 ≡ s.history_count + 1 = omega (arith, holds.count) in
    let newest : s.command_history ((s.history_count - 1) % 10) ≡ last =
      ap (λ n. s.command_history (n % 10)) (no_step (s.history_count - 1))
      ∙ holds.entries 0 (omega arith) (omega arith) in
    rw
      (some_entry, newest, more, shell_strcmp-same last (c ∷ cs) (holds.texts 0 (omega arith)) text)
      refl

-- `add_to_history` refines the list of the commands, for a command without zero bytes and while the int
-- that counts the commands has room for one more: an empty
-- command and a repetition of the last entry are passed over, another one is cut to 255 bytes and
-- becomes the newest, and the ten newest are in the slots.
pub add_to_history-Holds :
    (command : List ℕ) (s : History) (log : List (List ℕ))
    → Holds s log
    → is_text command ≡ true
    → length log < int_max
    → Holds (add_to_history command s) (remember command log)
unfolding add_to_history
add_to_history-Holds [] s log holds text room = holds
add_to_history-Holds (c ∷ cs) s [] holds text room =
    subst (λ t. Holds t (take 255 (c ∷ cs) ∷ [])) (sym (add_first s c cs holds))
      (store-Holds s [] (take 255 (c ∷ cs)) holds (take-is_text 255 (c ∷ cs) text))
add_to_history-Holds (c ∷ cs) s (last ∷ log) holds text room =
    subst (λ t. Holds t (remember (c ∷ cs) (last ∷ log)))
      (sym (add_next s c cs last log holds text room))
      (elim (Bool-cases (same last (c ∷ cs))) [
        | inl repeated ↦ rw repeated holds
        | inr other ↦
            rw other (
              store-Holds s (last ∷ log) (take 255 (c ∷ cs)) holds (take-is_text 255 (c ∷ cs) text))
      ])
