-- ===== src/Device/Log/Shared/Threads.antt =====
-- The lines of two threads in one `Log` (examples/ws-discovery/log.cpp).
use onvifxx.Base.{
  ℕ, ◌+◌, ◌≤◌, ◌≡◌, sym, ap, subst, subst₂, ◌∙◌, none, some, List, [], ◌∷◌, ◌++◌, length,
  append_assoc, append-nil, arith, All,
}
use onvifxx.Base.Chars.{Text}
use onvifxx.Device.Log.{Log, debug, to_log, c_str, sync}
use onvifxx.Base.Outcome.{ok}
use onvifxx.Device.Log.Shared.Lines.{
  IsWhole, lines-IsInsertion, lines-IsClosed, lines-ends, closed_buffer, write_line-insert_all,
  insert_all-append, insert_text, insert_line, insert_begun,
}
use onvifxx.Device.Log.Lines.{write_line, Line, IsLine, line_feed, put-one, put-buffer}
use onvifxx.Device.Log.Shared.{
  Insertion, byte, priority, flush, insert, insert_all, begun, insertions, text_bytes, end_line,
  all_insertions, Shuffle, nothing, from_left, from_right, bytes, messages, IsInsertion, IsByte,
  insert_all-length, insert_all-written,
}
use onvifxx.Device.Log.Shared.Shuffles.{
  Shuffle-All, left_first, right_first, all_right, Shuffle-bytes, Shuffle-ends, Shuffle-IsClosed,
}

-- Two lines, and two orders of theirs.
abbrev pub noted : ℕ → Text → Text → Line
noted p place words = record { place = place; priority = some p; text = words }

abbrev pub plain : Text → Text → Line
plain place words = record { place = place; priority = none; text = words }

-- The place of the second line comes behind that of the first.
abbrev mixed : ℕ → Text → Text → Text → Text → List Insertion
mixed p place words place' words' =
    text_bytes place
    ++ (text_bytes place'
        ++ ((priority p ∷ text_bytes words ++ end_line) ++ (text_bytes words' ++ end_line)))

mixed-Shuffle :
    (p : ℕ) (place words place' words' : Text)
    → Shuffle
        (insertions (noted p place words))
        (insertions (plain place' words'))
        (mixed p place words place' words')
mixed-Shuffle p place words place' words' =
    let first = priority p ∷ text_bytes words ++ end_line in
    let second = text_bytes words' ++ end_line in
    subst₂ (λ xs ys. Shuffle xs ys (mixed p place words place' words'))
      (sym (append_assoc (text_bytes place) (priority p ∷ text_bytes words) end_line))
      (sym (append_assoc (text_bytes place') (text_bytes words') end_line))
      (left_first (text_bytes place) (
        right_first (text_bytes place') (
          subst (λ xs. Shuffle xs second (first ++ second)) (append-nil first)
            (left_first first (all_right second)))))

mixed-sent :
    (p : ℕ) (place words place' words' : Text) (l : Log)
    → IsLine (noted p place words)
    → IsLine (plain place' words')
    → l.buffer ≡ []
    → (insert_all (mixed p place words place' words') l).sent
      ≡ l.sent
        ++ (p, c_str (((place ++ place') ++ words) ++ line_feed ∷ []))
          ∷ (debug, c_str (words' ++ line_feed ∷ []))
          ∷ []
unfolding insert_all
mixed-sent p place words place' words' l (a, b) (c, d) empty =
    let marked = priority p ∷ text_bytes words in
    let second = text_bytes words' ++ end_line in
    let line = insertions (noted p place' words) in
    let same : mixed p place words place' words' ≡ text_bytes place ++ (line ++ second) =
      ap (λ x. text_bytes place ++ x)
        (sym (append_assoc (text_bytes place') (marked ++ end_line) second)
          ∙ ap (λ x. x ++ second) (sym (append_assoc (text_bytes place') marked end_line))) in
    let behind : Log = record l { buffer = l.buffer ++ place } in
    let text : ((l.buffer ++ place) ++ ((place' ++ words) ++ line_feed ∷ []))
        ≡ ((place ++ place') ++ words) ++ line_feed ∷ [] =
      ap (λ b. (b ++ place) ++ ((place' ++ words) ++ line_feed ∷ [])) empty
      ∙ sym (append_assoc place (place' ++ words) (line_feed ∷ []))
      ∙ ap (λ t. t ++ line_feed ∷ []) (sym (append_assoc place place' words)) in
    ap (λ is. (insert_all is l).sent) same
    ∙ ap (λ l. l.sent) (insert_all-append (text_bytes place) (line ++ second) l)
    ∙ ap (λ m. (insert_all (line ++ second) m).sent) (insert_text place l ∙ put-buffer place l a)
    ∙ ap (λ l. l.sent) (insert_all-append line second behind)
    ∙ ap (λ m. (insert_all second m).sent) (insert_line (some p) place' words behind c b)
    ∙ ap (λ l. l.sent) (insert_line none [] words' _ tt d)
    ∙ append_assoc l.sent _ ((debug, c_str (words' ++ line_feed ∷ [])) ∷ [])
    ∙ ap (λ t. l.sent ++ (p, c_str t) ∷ (debug, c_str (words' ++ line_feed ∷ [])) ∷ []) text

-- The line feeds of both lines come before the flush of either.
abbrev joined : ℕ → Text → Text → Text → Text → List Insertion
joined p place words place' words' =
    begun (noted p place words)
    ++ (byte line_feed ∷ (begun (plain place' words') ++ (byte line_feed ∷ flush ∷ flush ∷ [])))

joined-Shuffle :
    (p : ℕ) (place words place' words' : Text)
    → Shuffle
        (insertions (noted p place words))
        (insertions (plain place' words'))
        (joined p place words place' words')
joined-Shuffle p place words place' words' = left_first (begun (noted p place words)) (
    from_left
      (right_first (begun (plain place' words')) (from_right (from_left (from_right nothing)))))

joined-sent :
    (p : ℕ) (place words place' words' : Text) (l : Log)
    → IsLine (noted p place words)
    → IsLine (plain place' words')
    → l.buffer ≡ []
    → (insert_all (joined p place words place' words') l).sent
      ≡ l.sent
        ++ (
          p,
          c_str (((place ++ words) ++ line_feed ∷ []) ++ ((place' ++ words') ++ line_feed ∷ [])),
        )
          ∷ []
unfolding insert_all insert sync
joined-sent p place words place' words' l (a, b) (c, d) empty =
    let line = insertions (plain place' words') in
    let tail = begun (plain place' words') ++ (byte line_feed ∷ flush ∷ flush ∷ []) in
    let first : Log = record l { buffer = l.buffer ++ (place ++ words); priority = p } in
    let fed : Log = record first { buffer = first.buffer ++ line_feed ∷ [] } in
    let feed : insert (byte line_feed) first ≡ fed =
      sym (put-one line_feed first) ∙ put-buffer (line_feed ∷ []) first (omega arith, tt) in
    let text : ((l.buffer ++ (place ++ words)) ++ line_feed ∷ [])
          ++ ((place' ++ words') ++ line_feed ∷ [])
        ≡ ((place ++ words) ++ line_feed ∷ []) ++ ((place' ++ words') ++ line_feed ∷ []) =
      ap
        (λ b. ((b ++ (place ++ words)) ++ line_feed ∷ []) ++ ((place' ++ words') ++ line_feed ∷ []))
        empty in
    ap (λ l. l.sent) (insert_all-append (begun (noted p place words)) (byte line_feed ∷ tail) l)
    ∙ ap (λ m. (insert_all (byte line_feed ∷ tail) m).sent)
        (insert_begun (some p) place words l a b)
    ∙ ap (λ m. (insert_all tail m).sent) feed
    ∙ ap (λ is. (insert_all is fed).sent)
        (sym (append_assoc (begun (plain place' words')) end_line (flush ∷ [])))
    ∙ ap (λ l. l.sent) (insert_all-append line (flush ∷ []) fed)
    ∙ ap (λ m. (insert_all (flush ∷ []) m).sent) (insert_line none place' words' fed c d)
    ∙ ap (λ t. l.sent ++ (p, c_str t) ∷ []) text

-- Two threads write lines without zero bytes to one `Log` in which nothing waits, and the calls of the
-- buffer come in any order of the two. A text is a call for each byte, the priority of a line is set in
-- between, and `std::endl` is a line feed and then a flush. If no call is cut by another, which nothing
-- in the code ensures, no byte is lost: nothing waits at the end, and the bytes of the new messages are
-- those of the two threads, each in its order. But there may be fewer messages than lines, though not
-- more, and which thread a byte is from is not kept. For any line with a priority and any without there
-- is an order in which the first message has the place of the second line inside, and the second
-- message is the text of the second line alone; and one in which both lines are one message, with the
-- priority of the first. A line that is alone is written as one line.
pub shared_lines :
    (left right : List Line) (l : Log)
    → All IsWhole left
    → All IsWhole right
    → l.buffer ≡ []
    → ((zs : List Insertion)
        → Shuffle (all_insertions left) (all_insertions right) zs
        → let l' = insert_all zs l in
          (length l'.sent ≤ length l.sent + (length left + length right))
          × (l'.buffer ≡ [])
          × (messages l'.sent ≡ messages l.sent ++ bytes zs)
          × Shuffle (bytes (all_insertions left)) (bytes (all_insertions right)) (bytes zs))
      × ((p : ℕ) (place words place' words' : Text)
          → IsLine (noted p place words)
          → IsLine (plain place' words')
          → ((zs : List Insertion) × Shuffle
                (insertions (noted p place words))
                (insertions (plain place' words'))
                zs
              × ((insert_all zs l).sent
                  ≡ l.sent
                    ++ (p, c_str (((place ++ place') ++ words) ++ line_feed ∷ []))
                      ∷ (debug, c_str (words' ++ line_feed ∷ []))
                      ∷ []))
            × ((zs : List Insertion) × Shuffle
                  (insertions (noted p place words))
                  (insertions (plain place' words'))
                  zs
                × ((insert_all zs l).sent
                    ≡ l.sent
                      ++ (
                        p,
                        c_str (
                            ((place ++ words) ++ line_feed ∷ [])
                            ++ ((place' ++ words') ++ line_feed ∷ [])),
                      )
                        ∷ [])))
      × ((line : Line) → write_line line (to_log l) ≡ ok (to_log (insert_all (insertions line) l)))
shared_lines left right l are be empty = (
  λ zs s.
      let all =
        Shuffle-All IsInsertion s (lines-IsInsertion left are) (lines-IsInsertion right be) in
      let over =
        closed_buffer zs l (Shuffle-IsClosed s (lines-IsClosed left) (lines-IsClosed right))
          empty in
      let l' = insert_all zs l in
      (
        omega (arith, insert_all-length zs l, Shuffle-ends s, lines-ends left, lines-ends right),
        over,
        sym (append-nil (messages l'.sent))
            ∙ ap (λ b. messages l'.sent ++ b) (sym over)
            ∙ insert_all-written zs l all (subst (All IsByte) (sym empty) tt)
            ∙ ap (λ b. (messages l.sent ++ b) ++ bytes zs) empty
            ∙ ap (λ m. m ++ bytes zs) (append-nil (messages l.sent)),
        Shuffle-bytes s,
      ),
  λ p place words place' words' a b. (
    (
      mixed p place words place' words',
      mixed-Shuffle p place words place' words',
      mixed-sent p place words place' words' l a b empty,
    ),
    (
      joined p place words place' words',
      joined-Shuffle p place words place' words',
      joined-sent p place words place' words' l a b empty,
    ),
  ),
  λ line. write_line-insert_all line l,
)
