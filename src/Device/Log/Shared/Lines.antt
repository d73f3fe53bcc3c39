-- ===== src/Device/Log/Shared/Lines.antt =====
-- The insertions of whole lines (examples/ws-discovery/log.hpp).
use onvifxx.Base.{
  append_assoc, All-append, ℕ, suc, ◌≡◌, refl, sym, ap, subst, ◌∙◌, Option, none, some, List, [],
  ◌∷◌, ◌++◌, length, All, arith,
}
use onvifxx.Base.Chars.{Text}
use onvifxx.Base.Outcome.{ok}
use onvifxx.Device.Log.{debug, Log, c_str, sync, to_log, set_priority}
use onvifxx.Device.Log.Lines.{
  line_feed, AreBytes, put, put-buffer, put-nil, put-cons, put-one, Line, write_line, put_stream,
  put_priority, finish_line, IsLine, whole,
}
use onvifxx.Device.Log.Shared.{
  insert_end, begun, Insertion, byte, priority, flush, insert, insert_all, insertions, text_bytes,
  end_line, all_insertions, IsInsertion, IsByte, ends, IsClosed, insert_all-closed, c_str-All,
}

-- A line without a zero byte.
abbrev pub IsWhole : Line → Type 0
IsWhole line = All IsByte line.place × All IsByte line.text

text-AreBytes : (t : Text) → All IsByte t → AreBytes t
text-AreBytes [] is = tt
text-AreBytes (c ∷ t) (one, is) = (one.1, text-AreBytes t is)

pub IsWhole-IsLine : (line : Line) → IsWhole line → IsLine line
IsWhole-IsLine line (a, b) = (text-AreBytes line.place a, text-AreBytes line.text b)

pub IsWhole-c_str : (line : Line) → IsWhole line → c_str (whole line) ≡ whole line
IsWhole-c_str line (a, b) = c_str-All (whole line) (
    All-append IsByte (line.place ++ line.text) (line_feed ∷ [])
      (All-append IsByte line.place line.text a b) (ground arith))

text-IsInsertion : (t : Text) → All IsByte t → All IsInsertion (text_bytes t)
text-IsInsertion [] is = tt
text-IsInsertion (c ∷ t) (one, is) = (one, text-IsInsertion t is)

line-IsInsertion :
    (o : Option ℕ) (place words : Text)
    → All IsByte place
    → All IsByte words
    → All IsInsertion (insertions (record { place = place; priority = o; text = words }))
line-IsInsertion none place words a b =
    All-append IsInsertion (text_bytes place ++ text_bytes words) end_line
      (All-append IsInsertion (text_bytes place) (text_bytes words) (text-IsInsertion place a)
        (text-IsInsertion words b))
      (ground arith)
line-IsInsertion (some p) place words a b =
    All-append IsInsertion (text_bytes place ++ priority p ∷ text_bytes words) end_line
      (All-append IsInsertion (text_bytes place) (priority p ∷ text_bytes words)
        (text-IsInsertion place a) (tt, text-IsInsertion words b))
      (ground arith)

pub lines-IsInsertion :
    (lines : List Line) → All IsWhole lines → All IsInsertion (all_insertions lines)
lines-IsInsertion [] all = tt
lines-IsInsertion (line ∷ lines) ((a, b), all) =
    All-append IsInsertion (insertions line) (all_insertions lines)
      (line-IsInsertion line.priority line.place line.text a b) (lines-IsInsertion lines all)

-- Behind a line comes nothing, or something that is closed.
behind-IsClosed :
    (xs : List Insertion) (i : Insertion) (is : List Insertion)
    → IsClosed (i ∷ is)
    → IsClosed (xs ++ i ∷ is)
behind-IsClosed [] i is closed = closed
behind-IsClosed (x ∷ []) i is closed = closed
behind-IsClosed (x ∷ y ∷ xs) i is closed = behind-IsClosed (y ∷ xs) i is closed

flush-IsClosed : (is : List Insertion) → IsClosed is → IsClosed (flush ∷ is)
flush-IsClosed [] closed = refl
flush-IsClosed (i ∷ is) closed = closed

pub lines-IsClosed : (lines : List Line) → IsClosed (all_insertions lines)
lines-IsClosed [] = tt
lines-IsClosed (line ∷ lines) =
    subst IsClosed (sym (append_assoc (begun line) end_line (all_insertions lines))) (
      behind-IsClosed (begun line) (byte line_feed) (flush ∷ all_insertions lines)
        (flush-IsClosed (all_insertions lines) (lines-IsClosed lines)))

text-ends : (t : Text) (is : List Insertion) → ends (text_bytes t ++ is) ≡ ends is
text-ends [] is = refl
text-ends (c ∷ t) is = text-ends t is

line-ends :
    (o : Option ℕ) (place words : Text) (is : List Insertion)
    → ends (insertions (record { place = place; priority = o; text = words }) ++ is) ≡ suc (ends is)
line-ends none place words is =
    ap ends (
      append_assoc (text_bytes place ++ text_bytes words) end_line is
      ∙ append_assoc (text_bytes place) (text_bytes words) (end_line ++ is))
    ∙ text-ends place (text_bytes words ++ (end_line ++ is))
    ∙ text-ends words (end_line ++ is)
line-ends (some p) place words is =
    ap ends (
      append_assoc (text_bytes place ++ priority p ∷ text_bytes words) end_line is
      ∙ append_assoc (text_bytes place) (priority p ∷ text_bytes words) (end_line ++ is))
    ∙ text-ends place (priority p ∷ (text_bytes words ++ (end_line ++ is)))
    ∙ text-ends words (end_line ++ is)

pub lines-ends : (lines : List Line) → ends (all_insertions lines) ≡ length lines
lines-ends [] = refl
lines-ends (line ∷ lines) =
    line-ends line.priority line.place line.text (all_insertions lines) ∙ ap suc (lines-ends lines)

pub closed_buffer :
    (zs : List Insertion) (l : Log) → IsClosed zs → l.buffer ≡ [] → (insert_all zs l).buffer ≡ []
unfolding insert_all
closed_buffer [] l closed empty = empty
closed_buffer (z ∷ zs) l closed empty = insert_all-closed z zs l closed

pub insert_all-append :
    (xs ys : List Insertion) (l : Log) → insert_all (xs ++ ys) l ≡ insert_all ys (insert_all xs l)
unfolding insert_all
insert_all-append [] ys l = refl
insert_all-append (x ∷ xs) ys l = insert_all-append xs ys (insert x l)

-- A text is written byte by byte.
pub insert_text : (t : Text) (l : Log) → insert_all (text_bytes t) l ≡ put t l
unfolding insert_all insert
insert_text [] l = sym (put-nil l)
insert_text (c ∷ t) l = insert_text t (insert (byte c) l) ∙ sym (put-cons c t l)

-- The calls of a line that is begun.
insert_both :
    (o : Option ℕ) (place words : Text) (l : Log)
    → insert_all (begun (record { place = place; priority = o; text = words })) l
      ≡ put words (record (put place l) {
        priority = elim o [ none ↦ (put place l).priority | some p ↦ p ];
      })
unfolding insert_all insert
insert_both none place words l =
    insert_all-append (text_bytes place) (text_bytes words) l
    ∙ ap (insert_all (text_bytes words)) (insert_text place l)
    ∙ insert_text words (put place l)
insert_both (some p) place words l =
    insert_all-append (text_bytes place) (priority p ∷ text_bytes words) l
    ∙ ap (insert_all (priority p ∷ text_bytes words)) (insert_text place l)
    ∙ insert_text words (record (put place l) { priority = p })

by_priority :
    (o : Option ℕ) (place words : Text) (l : Log)
    → write_line (record { place = place; priority = o; text = words }) (to_log l)
      ≡ ok (
          to_log (
            sync (
              put (line_feed ∷ []) (
                put words (record (put place l) {
                  priority = elim o [ none ↦ (put place l).priority | some p ↦ p ];
                })))))
unfolding write_line put_stream put_priority finish_line set_priority
by_priority none place words l = refl
by_priority (some p) place words l = refl

-- A line that is alone is the insertions one after the other.
pub write_line-insert_all :
    (line : Line) (l : Log)
    → write_line line (to_log l) ≡ ok (to_log (insert_all (insertions line) l))
unfolding insert_all insert
write_line-insert_all line l =
    by_priority line.priority line.place line.text l
    ∙ ap (λ m. ok (to_log (sync (put (line_feed ∷ []) m))))
        (sym (insert_both line.priority line.place line.text l))
    ∙ ap (λ m. ok (to_log (sync m))) (put-one line_feed (insert_all (begun line) l))
    ∙ ap (λ m. ok (to_log m)) (sym (insert_all-append (begun line) end_line l))

-- A line that is begun: its priority is set, and its bytes wait.
pub insert_begun :
    (o : Option ℕ) (place words : Text) (l : Log)
    → AreBytes place
    → AreBytes words
    → insert_all (begun (record { place = place; priority = o; text = words })) l ≡ record l {
      buffer = l.buffer ++ (place ++ words);
      priority = elim o [ none ↦ l.priority | some p ↦ p ];
    }
insert_begun o place words l a b =
    insert_both o place words l
    ∙ ap
        (λ (m : Log). put words (record m { priority = elim o [ none ↦ m.priority | some p ↦ p ] }))
        (put-buffer place l a)
    ∙ put-buffer words _ b
    ∙ ap (λ t. record l { buffer = t; priority = elim o [ none ↦ l.priority | some p ↦ p ] })
        (append_assoc l.buffer place words)

-- A whole line, behind what waits.
pub insert_line :
    (o : Option ℕ) (place words : Text) (l : Log)
    → AreBytes place
    → AreBytes words
    → insert_all (insertions (record { place = place; priority = o; text = words })) l ≡ record l {
      sent =
          l.sent
          ++ (
            elim o [ none ↦ l.priority | some p ↦ p ],
            c_str (l.buffer ++ ((place ++ words) ++ line_feed ∷ [])),
          )
            ∷ [];
      buffer = [];
      priority = debug;
    }
insert_line o place words l a b =
    insert_all-append (begun (record { place = place; priority = o; text = words })) end_line l
    ∙ ap (insert_all end_line) (insert_begun o place words l a b)
    ∙ insert_end _
    ∙ ap
        (λ t. record l {
          sent = l.sent ++ (elim o [ none ↦ l.priority | some p ↦ p ], c_str t) ∷ [];
          buffer = [];
          priority = debug;
        })
        (append_assoc l.buffer (place ++ words) (line_feed ∷ []))
