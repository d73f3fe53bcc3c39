-- ===== src/Device/Main/Logged.antt =====
-- What the main thread leaves in the log (examples/ws-discovery/wsdd.cpp, log.cpp).
use onvifxx.Base.{
  ℕ, zero, suc, ◌+◌, ◌/◌, ◌%◌, ◌<◌, ◌≡◌, sym, ap, ◌∙◌, none, some, Bool, List, [], ◌∷◌, ◌++◌, map,
  append_assoc, append-nil, All, All-append, arith, Bool-cases, inl, inr, ltb,
}
use onvifxx.Base.Chars.{Text, codes, print_nat}
use onvifxx.Device.Log.{Log, debug, c_str}
use onvifxx.Device.Log.Lines.{AreBytes, Line, IsIdle, line_feed}
use onvifxx.Device.Log.Shared.Lines.{insert_all-append, insert_begun, insert_line}
use onvifxx.Device.Log.Shared.{begun, insertions, insert_all}
use onvifxx.Device.Main.{Round, exec, round_notes, wrong_note, handler_notes, all_handler_notes}
use onvifxx.Device.Main.Runs.{retry, signalled, retry_notes, after_signal, exec_signal}
use onvifxx.Device.Notes.{Note, log, warning, line_of, all_note_insertions}

print_nat-AreBytes : (fuel n : ℕ) → AreBytes (print_nat fuel n)
unfolding print_nat
print_nat-AreBytes zero n = tt
print_nat-AreBytes (suc fuel) n = elim (Bool-cases (ltb n 10)) [
  | inl less ↦ rw (less) (ground arith, tt)
  | inr more ↦ rw (more) (
      All-append (λ c. c < 256) (print_nat fuel (n / 10)) ((b'0' + n % 10) ∷ [])
        (print_nat-AreBytes fuel (n / 10)) (omega arith, tt))
]

module _ (place : ℕ → Text) (bytes : (n : ℕ) → AreBytes (place n)) where
  -- The line that a note is, without a priority.
  abbrev sentence : ℕ → Text → ℕ × Text
  sentence n words = (debug, c_str ((place n ++ words) ++ line_feed ∷ []))

  -- Lines without a priority.
  abbrev plain_notes : List (ℕ × Text) → List Note
  plain_notes [] = []
  plain_notes ((n, words) ∷ rest) = log n words ∷ plain_notes rest

  abbrev sentences : List (ℕ × Text) → List (ℕ × Text)
  sentences [] = []
  sentences ((n, words) ∷ rest) = sentence n words ∷ sentences rest

  abbrev HasBytes : List (ℕ × Text) → Type 0
  HasBytes [] = Unit
  HasBytes ((n, words) ∷ rest) = AreBytes words × HasBytes rest

  insert_plain :
      (ws : List (ℕ × Text)) (sent : List (ℕ × Text)) (l : Log)
      → HasBytes ws
      → insert_all
          (all_note_insertions place (plain_notes ws))
          (record l { sent = sent; buffer = []; priority = debug })
        ≡ record l { sent = sent ++ sentences ws; buffer = []; priority = debug }
  unfolding insert_all
  insert_plain [] sent l is =
      ap (λ s. record l { sent = s; buffer = []; priority = debug }) (sym (append-nil sent))
  insert_plain ((n, words) ∷ ws) sent l (one, rest) =
      let line : Line = record { place = place n; priority = none; text = words } in
      let begin : Log = record l { sent = sent; buffer = []; priority = debug } in
      insert_all-append (insertions line) (all_note_insertions place (plain_notes ws)) begin
      ∙ ap (insert_all (all_note_insertions place (plain_notes ws)))
          (insert_line none (place n) words begin (bytes n) one)
      ∙ insert_plain ws (sent ++ sentence n words ∷ []) l rest
      ∙ ap (λ s. record l { sent = s; buffer = []; priority = debug })
          (append_assoc sent (sentence n words ∷ []) (sentences ws))

  -- "Running service", behind what waits.
  abbrev running : Text
  running = (place 48 ++ codes "Running service") ++ line_feed ∷ []

  -- What went wrong, and the line behind it, in one message.
  abbrev pub merged : Text → ℕ × Text
  merged what = (warning, c_str ((place 54 ++ (codes "Something wrong - " ++ what)) ++ running))

  abbrev pub last_words : ℕ → List (ℕ × Text)
  last_words signal =
      (188, codes "A signal occurred " ++ print_nat 10 signal)
      ∷ (198, codes "Waiting for finish of service")
      ∷ (51, codes "Service stopped")
      ∷ []

  last_words-HasBytes : (signal : ℕ) → HasBytes (last_words signal)
  last_words-HasBytes signal = (
    All-append (λ c. c < 256) (codes "A signal occurred ") (print_nat 10 signal) (ground arith)
        (print_nat-AreBytes 10 signal),
    (ground arith, (ground arith, tt)),
  )

  -- All rounds of the loop, from a log in which anything may wait.
  insert_rounds :
      (whats : List Text) (signal : ℕ) (l : Log)
      → All AreBytes whats
      → insert_all
          (all_note_insertions place (retry_notes whats ++ round_notes (some signal ∷ [])))
          l
        ≡ record l {
          sent =
              l.sent
              ++ (l.priority, c_str (l.buffer ++ running))
                ∷ (map merged whats ++ sentences (last_words signal));
          buffer = [];
          priority = debug;
        }
  unfolding all_handler_notes handler_notes
  insert_rounds [] signal l is =
      let line : Line = line_of place (log 48 (codes "Running service")) in
      let rest = all_note_insertions place (plain_notes (last_words signal)) in
      let first : ℕ × Text = (l.priority, c_str (l.buffer ++ running)) in
      insert_all-append (insertions line) rest l
      ∙ ap (insert_all rest) (insert_line none line.place line.text l (bytes 48) (ground arith))
      ∙ insert_plain (last_words signal) (l.sent ++ first ∷ []) l (last_words-HasBytes signal)
      ∙ ap (λ s. record l { sent = s; buffer = []; priority = debug })
          (append_assoc l.sent (first ∷ []) (sentences (last_words signal)))
  insert_rounds (what ∷ whats) signal l (one, is) =
      let line : Line = line_of place (log 48 (codes "Running service")) in
      let wrong : Line = line_of place (wrong_note what) in
      let rest = all_note_insertions place (retry_notes whats ++ round_notes (some signal ∷ [])) in
      let first : ℕ × Text = (l.priority, c_str (l.buffer ++ running)) in
      let words : AreBytes wrong.text =
        All-append (λ c. c < 256) (codes "Something wrong - ") what (ground arith) one in
      let m : Log = record l { sent = l.sent ++ first ∷ []; buffer = []; priority = debug } in
      let n : Log = record m { buffer = wrong.place ++ wrong.text; priority = warning } in
      insert_all-append (insertions line) (begun wrong ++ rest) l
      ∙ ap (insert_all (begun wrong ++ rest))
          (insert_line none line.place line.text l (bytes 48) (ground arith))
      ∙ insert_all-append (begun wrong) rest m
      ∙ ap (insert_all rest) (insert_begun (some warning) wrong.place wrong.text m (bytes 54) words)
      ∙ insert_rounds whats signal n is
      ∙ ap (λ s. record l { sent = s; buffer = []; priority = debug })
          (append_assoc l.sent (first ∷ []) _)

  -- The main thread of the program alone, on an idle log: after any rounds of the loop in which
  -- `ios_.run()` only throws, a signal ends the last. What it writes on the way arrives as one message
  -- for each "Running service" and three for the end. What went wrong in a round has none of its own: it
  -- stands in front of the next "Running service", in one message, which takes its priority, a warning.
  -- What `LOG` writes for a place, and what the exceptions say, is bytes; a message ends at a zero.
  pub exec_logged :
      (daemonize : Bool) (whats : List Text) (signal : ℕ) (later : List Round) (l : Log)
      → All AreBytes whats
      → IsIdle l
      → (notes : List Note) × (exec daemonize none (map retry whats ++ signalled signal ∷ later)
          ≡ some (notes, after_signal signal))
        × (insert_all (all_note_insertions place notes) l ≡ record l {
          sent =
              l.sent
              ++ (debug, c_str running) ∷ (map merged whats ++ sentences (last_words signal));
        })
  exec_logged daemonize whats signal later l is (empty, default) = (
    _,
    (exec_signal daemonize whats signal later []).0,
    insert_rounds whats signal l is ∙ (λ i. record l {
      sent =
          l.sent
          ++ (default i, c_str (empty i ++ running))
            ∷ (map merged whats ++ sentences (last_words signal));
      buffer = sym empty i;
      priority = sym default i;
    }),
  )
