-- ===== src/Device/Log/Lines.antt =====
-- Lines that are written to a `Log`.
use onvifxx.Base.{
  ℕ, ◌%◌, ◌<◌, ◌≡◌, refl, sym, ap, ◌∙◌, Option, none, some, false, List, [], ◌∷◌, ◌++◌, ◌==◌,
  length, length-append, append_assoc, append-nil, arith, All, map,
}
use onvifxx.Base.Chars.{Text}
use onvifxx.Base.Outcome.{Outcome, ok, fault, wrong_cast, ◌>>=◌}
use onvifxx.Device.Log.{Log, Stream, to_log, standard, debug, c_str, sync, overflow, set_priority}

-- A stream without a put area gives each byte to `overflow`.
pub put : Text → Log → Log
put [] l = l
put (c ∷ cs) l = put cs (overflow (some c) l)

pub put-cons : (c : ℕ) (cs : Text) (l : Log) → put (c ∷ cs) l ≡ put cs (overflow (some c) l)
unfolding put
put-cons c cs l = refl

pub put-nil : (l : Log) → put [] l ≡ l
unfolding put
put-nil l = refl

pub put-one : (c : ℕ) (l : Log) → put (c ∷ []) l ≡ overflow (some c) l
unfolding put
put-one c l = refl

abbrev pub AreBytes : Text → Type 0
AreBytes = All (λ c. c < 256)

pub put-buffer :
    (text : Text) (l : Log) → AreBytes text → put text l ≡ record l { buffer = l.buffer ++ text }
unfolding put overflow
put-buffer [] l bytes = simp append-nil
put-buffer (c ∷ cs) l bytes =
    let byte : c % 256 ≡ c = omega (arith, bytes.0) in
    put-buffer cs (record l { buffer = l.buffer ++ (c % 256) ∷ [] }) bytes.1
    ∙ ap (λ b. record l { buffer = b })
        (append_assoc l.buffer ((c % 256) ∷ []) cs ∙ ap (λ c. l.buffer ++ c ∷ cs) byte)

-- What `LOG << text << std::endl`, `LOG_I << text << std::endl` and the like write: the place in the
-- source, the priority where the macro has one, the text, and a line feed, at which the buffer is
-- synchronised.
pub record Line : Type 0 where
  pub place : Text
  pub priority : Option ℕ
  pub text : Text

abbrev pub line_feed : ℕ
line_feed = 10

abbrev pub whole : Line → Text
whole line = (line.place ++ line.text) ++ line_feed ∷ []

-- The priority that a message has: without one, the default.
abbrev pub level : Option ℕ → ℕ
level none = debug
level (some p) = p

-- The message that a line is: what stands behind a zero is cut.
abbrev pub message : Line → ℕ × Text
message line = (level line.priority, c_str (whole line))

abbrev pub IsLine : Line → Type 0
IsLine line = AreBytes line.place × AreBytes line.text

unfoldable pub put_stream : Text → Stream → Stream
put_stream text standard = standard
put_stream text (to_log l) = to_log (put text l)

-- The priority of the macro.
unfoldable pub put_priority : Option ℕ → Stream → Outcome Stream
put_priority none s = ok s
put_priority (some p) s = set_priority p s

-- The rest of a line once its priority is set.
unfoldable pub finish_line : Text → Stream → Stream
finish_line text standard = standard
finish_line text (to_log l) = to_log (sync (put (line_feed ∷ []) (put text l)))

unfoldable pub write_line : Line → Stream → Outcome Stream
unfolding put_stream put_priority finish_line
write_line line s = do
  s' ← put_priority line.priority (put_stream line.place s)
  ok (finish_line line.text s')

-- Nothing is waiting, and the next message has the default priority.
abbrev pub IsIdle : Log → Type 0
IsIdle l = (l.buffer ≡ []) × (l.priority ≡ debug)

-- What the bytes of a line come to, once its priority is set.
finished :
    (line : Line) (p : ℕ) (l : Log)
    → IsLine line
    → l.buffer ≡ []
    → sync (put (line_feed ∷ []) (put line.text (record (put line.place l) { priority = p })))
      ≡ record l { sent = l.sent ++ (p, c_str (whole line)) ∷ []; buffer = []; priority = debug }
unfolding sync
finished line p l (place, text) empty =
    let line_end = put (line_feed ∷ []) in
    let begun = record l { priority = p; buffer = l.buffer ++ line.place } in
    let some_bytes : (length (whole line) == 0) ≡ false =
      ground (arith, length-append (line.place ++ line.text) (line_feed ∷ [])) in
    ap (λ (m : Log). sync (line_end (put line.text (record m { priority = p }))))
      (put-buffer line.place l place)
    ∙ ap (λ m. sync (line_end m)) (put-buffer line.text begun text)
    ∙ ap sync (put-buffer (line_feed ∷ []) _ (omega arith, tt))
    ∙ ap
        (λ b.
          sync (record l {
            priority = p;
            buffer = ((b ++ line.place) ++ line.text) ++ line_feed ∷ [];
          }))
        empty
    ∙ rw (some_bytes, sync) refl

by_priority :
    (o : Option ℕ) (line : Line) (l : Log)
    → IsLine line
    → IsIdle l
    → (put_priority o (to_log (put line.place l)) >>= λ s. ok (finish_line line.text s))
      ≡ ok (to_log (record l { sent = l.sent ++ (level o, c_str (whole line)) ∷ [] }))
unfolding put_priority set_priority finish_line
by_priority o line l is (empty, default) =
    let end : ℕ → Log → Outcome Stream = (λ p m.
      ok (to_log (sync (put (line_feed ∷ []) (put line.text (record m { priority = p })))))) in
    let by_default : put line.place l ≡ record (put line.place l) { priority = debug } =
      put-buffer line.place l is.0
      ∙ (λ i. record l { buffer = l.buffer ++ line.place; priority = default i })
      ∙ (λ i. record (sym (put-buffer line.place l is.0) i) { priority = debug }) in
    let same : (put_priority o (to_log (put line.place l)) >>= λ s. ok (finish_line line.text s))
        ≡ end (level o) (put line.place l) =
      elim o
        as (λ o.
          (put_priority o (to_log (put line.place l)) >>= λ s. ok (finish_line line.text s))
          ≡ end (level o) (put line.place l)) [
            | none ↦
                ap (λ m. ok (to_log (sync (put (line_feed ∷ []) (put line.text m))))) by_default
            | some p ↦ refl
          ] in
    same ∙ ap (λ m. ok (to_log m)) (finished line (level o) l is empty) ∙ (λ i. ok (
      to_log (record l {
        sent = l.sent ++ (level o, c_str (whole line)) ∷ [];
        buffer = sym empty i;
        priority = sym default i;
      })))

pub write_line-sent :
    (line : Line) (l : Log)
    → IsLine line
    → IsIdle l
    → write_line line (to_log l) ≡ ok (to_log (record l { sent = l.sent ++ message line ∷ [] }))
unfolding write_line
write_line-sent line l is idle = by_priority line.priority line l is idle

pub write_all : List Line → Stream → Outcome Stream
write_all [] s = ok s
write_all (line ∷ lines) s = do s' ← write_line line s; write_all lines s'

-- Without a priority a line goes to any stream.
abbrev pub IsPlain : Line → Type 0
IsPlain line = line.priority ≡ none

plain_line :
    (o : Option ℕ) (line : Line)
    → o ≡ none
    → (put_priority o standard >>= λ s. ok (finish_line line.text s)) ≡ ok standard
unfolding put_priority finish_line
plain_line none line e = refl
plain_line (some p) line e = cc

cast_line :
    (o : Option ℕ) (p : ℕ) (f : Stream → Outcome Stream)
    → o ≡ some p
    → (put_priority o standard >>= f) ≡ fault wrong_cast
unfolding put_priority set_priority
cast_line none p f e = cc
cast_line (some q) p f e = refl

pub write_line-cast :
    (line : Line) (p : ℕ) → line.priority ≡ some p → write_line line standard ≡ fault wrong_cast
unfolding write_line put_stream
write_line-cast line p e = cast_line line.priority p _ e

-- Any lines that are written to an idle `Log` arrive in the system log one by one, each with the
-- priority of its macro, or the default where it has none, and with its place, its text and the line
-- feed as one message, which a zero byte cuts, and leave it idle. On the standard buffer, which is that of a program that is no
-- daemon, lines without a priority are written, and the first that has one takes it for a `Log`.
pub write_all-sent :
    (lines : List Line) (l : Log)
    → All IsLine lines
    → IsIdle l
    → (write_all lines (to_log l) ≡ ok (to_log (record l { sent = l.sent ++ map message lines })))
      × (All IsPlain lines
          → (write_all lines standard ≡ ok standard)
            × ((line : Line) (p : ℕ) (more : List Line)
                → line.priority ≡ some p
                → write_all (lines ++ line ∷ more) standard ≡ fault wrong_cast))
unfolding write_all write_line put_stream
write_all-sent [] l is idle = (
  simp append-nil,
  λ plain. (refl, λ line p more e. ap (λ o. o >>= write_all more) (write_line-cast line p e)),
)
write_all-sent (line ∷ lines) l (first, rest) idle =
    let (sent, others) =
      write_all-sent lines (record l { sent = l.sent ++ message line ∷ [] }) rest idle in
    (
      ap (λ o. o >>= write_all lines) (write_line-sent line l first idle)
          ∙ sent
          ∙ ap (λ s. ok (to_log (record l { sent = s })))
              (append_assoc l.sent (message line ∷ []) _),
      λ plain.
          let alone = plain_line line.priority line plain.0 in
          let (went, casts) = others plain.1 in
          (
            ap (λ o. o >>= write_all lines) alone ∙ went,
            λ other p more e.
                ap (λ o. o >>= write_all (lines ++ other ∷ more)) alone ∙ casts other p more e,
          ),
    )
