-- ===== src/Shell/Tests.antt =====
-- Examples for the line editor of kernel/kernel.c.
use claude_os_20day_challeng.Base.{ℕ, ◌≡◌, refl, none, List, [], arith}
use claude_os_20day_challeng.MemFs.{codes}
use claude_os_20day_challeng.Terminal.{putchar, write}
use claude_os_20day_challeng.History.Log.{Holds, remember}
use claude_os_20day_challeng.Shell.{Shell, run, word_start_from, handle_char}
use claude_os_20day_challeng.Shell.Bounds.{Fits, handle_char-Fits}
use claude_os_20day_challeng.Shell.Typing.{type_all, type_all-run}

abbrev fresh : List ℕ → Shell
fresh typed = record {
  line = typed;
  terminal = record {
    terminal_row = 20;
    terminal_column = 10;
    terminal_color = 15;
    terminal_buffer = λ i. 0;
    cursor = 1610;
  };
  history = record { command_history = λ i. []; history_count = 0; history_current = none };
}

fresh-Holds : (typed : List ℕ) → Holds (fresh typed).history []
fresh-Holds typed = record {
  count = refl;
  entries = λ k low inside. absurd (omega arith);
  texts = λ k inside. absurd (omega arith);
}

-- A blank that was typed last does not end the word.
word_start_blank : word_start_from (codes "ls ") 2 ≡ 0
unfolding word_start_from
word_start_blank = refl

handle_char-Fits_example : Fits (fresh (codes "sy")) (handle_char b'\t' (fresh (codes "sy"))).1
handle_char-Fits_example =
    handle_char-Fits b'\t' (fresh (codes "sy")) (omega arith) (omega arith, omega arith)

type_all-run_example :
    let (action, s') = handle_char b'\n' (type_all (codes "ls -l") (fresh [])) in
    (action ≡ run (codes "ls -l"))
    × (s'.terminal ≡ putchar b'\n' (write (codes "ls -l") (fresh []).terminal))
    × Holds s'.history (remember (codes "ls -l") [])
type_all-run_example =
    type_all-run (codes "ls -l") (fresh []) [] refl refl (omega arith) (omega arith)
      (fresh-Holds []) (omega arith)
