-- ===== src/Device/Log/Shared.antt =====
-- A `Log` (examples/ws-discovery/log.cpp) behind `std::clog` that two threads write to: one call of the
-- buffer after the other, in any order of the two.
pub mod Lines
pub mod Threads
pub mod Shuffles
use onvifxx.Base.{
  ℕ, zero, suc, ◌+◌, ◌<◌, ◌≤◌, ◌≡◌, refl, sym, ap, subst, ◌∙◌, Option, none, some, List, [], ◌∷◌,
  ◌++◌, length, length-append, append_assoc, append-nil, arith, All, All-append, map, Bool-cases,
  inl, inr, ◌==◌, ==_iff, if◌then◌else◌, true, false,
}
use onvifxx.Base.Chars.{Text}
use onvifxx.Device.Log.{Log, debug, sync, c_str, overflow}
use onvifxx.Device.Log.Lines.{AreBytes, Line, line_feed, put, put-buffer, put-one}

-- A call of the stream's buffer, or the priority that is set in it. A text is written byte by byte, and
-- `std::endl` is a line feed and then a flush.
pub data Insertion : Type 0 where
  byte priority : ℕ → Insertion
  flush : Insertion

unfoldable pub insert : Insertion → Log → Log
insert (byte c) l = overflow (some c) l
insert (priority p) l = record l { priority = p }
insert flush l = sync l

unfoldable pub insert_all : List Insertion → Log → Log
insert_all [] l = l
insert_all (i ∷ is) l = insert_all is (insert i l)

abbrev pub text_bytes : Text → List Insertion
text_bytes [] = []
text_bytes (c ∷ cs) = byte c ∷ text_bytes cs

-- The calls of a line, without `std::endl` and with it.
abbrev pub begun : Line → List Insertion
begun line = elim line.priority [
  | none ↦ text_bytes line.place ++ text_bytes line.text
  | some p ↦ text_bytes line.place ++ priority p ∷ text_bytes line.text
]

abbrev pub end_line : List Insertion
end_line = byte line_feed ∷ flush ∷ []

abbrev pub insertions : Line → List Insertion
insertions line = begun line ++ end_line

abbrev pub all_insertions : List Line → List Insertion
all_insertions [] = []
all_insertions (line ∷ lines) = insertions line ++ all_insertions lines

-- Two lists in one, each in its order.
pub data Shuffle {A : Type 0} : List A → List A → List A → Type 0 where
  nothing : Shuffle [] [] []
  from_left : {x : A} {xs ys zs : List A} → Shuffle xs ys zs → Shuffle (x ∷ xs) ys (x ∷ zs)
  from_right : {y : A} {xs ys zs : List A} → Shuffle xs ys zs → Shuffle xs (y ∷ ys) (y ∷ zs)

-- The bytes that are written.
abbrev pub bytes : List Insertion → Text
bytes [] = []
bytes (byte c ∷ is) = c ∷ bytes is
bytes (priority p ∷ is) = bytes is
bytes (flush ∷ is) = bytes is

-- The bytes of the messages in the system log.
abbrev pub messages : List (ℕ × Text) → Text
messages [] = []
messages ((p, t) ∷ sent) = t ++ messages sent

-- Those, and the bytes that wait.
abbrev pub written : Log → Text
written l = messages l.sent ++ l.buffer

-- A byte that is not zero.
abbrev pub IsByte : ℕ → Type 0
IsByte c = (0 < c) × (c < 256)

abbrev pub IsInsertion : Insertion → Type 0
IsInsertion (byte c) = IsByte c
IsInsertion (priority p) = Unit
IsInsertion flush = Unit

pub c_str-All : (t : Text) → All IsByte t → c_str t ≡ t
unfolding c_str
c_str-All [] is = refl
c_str-All (c ∷ t) (one, is) = ground (arith, c_str-All t is)

messages-append :
    (sent : List (ℕ × Text)) (p : ℕ) (t : Text)
    → messages (sent ++ (p, t) ∷ []) ≡ messages sent ++ t
messages-append [] p t = append-nil t
messages-append ((q, u) ∷ sent) p t =
    ap (λ m. u ++ m) (messages-append sent p t) ∙ sym (append_assoc u (messages sent) t)

length-empty : (b : Text) → (length b == 0) ≡ true → b ≡ []
length-empty [] e = refl
length-empty (c ∷ b) e = absurd (ground arith)

pub sync-buffer : (l : Log) → (sync l).buffer ≡ []
unfolding sync
sync-buffer l = elim (Bool-cases (length l.buffer == 0)) [
  | inl none_ ↦ rw (none_, sync) (length-empty l.buffer none_)
  | inr some_ ↦ rw (some_, sync) refl
]

sync-written : (l : Log) → All IsByte l.buffer → written (sync l) ≡ written l
unfolding sync
sync-written l are = elim (Bool-cases (length l.buffer == 0)) [
  | inl none_ ↦ rw (none_, sync) refl
  | inr some_ ↦
      rw (some_, sync)
        (append-nil _
          ∙ messages-append l.sent l.priority (c_str l.buffer)
          ∙ ap (λ b. messages l.sent ++ b) (c_str-All l.buffer are))
]

-- At most one message.
sync-length : (l : Log) → length (sync l).sent ≤ length l.sent + 1
unfolding sync
sync-length l = elim (Bool-cases (length l.buffer == 0)) [
  | inl none_ ↦ rw (none_, sync) (omega arith)
  | inr some_ ↦
      rw (some_, sync) (omega (arith, length-append l.sent ((l.priority, c_str l.buffer) ∷ [])))
]

-- A line feed is a message's end.
sync_full :
    (l : Log) (b : Text) (c : ℕ)
    → l.buffer ≡ b ++ c ∷ []
    → sync l ≡ record l {
      sent = l.sent ++ (l.priority, c_str l.buffer) ∷ [];
      buffer = [];
      priority = debug;
    }
unfolding sync
sync_full l b c e =
    let full : (length l.buffer == 0) ≡ false = ground (arith, e, length-append b (c ∷ [])) in
    rw (full, sync) refl

pub insert_end :
    (l : Log)
    → insert_all end_line l ≡ record l {
      sent = l.sent ++ (l.priority, c_str (l.buffer ++ line_feed ∷ [])) ∷ [];
      buffer = [];
      priority = debug;
    }
unfolding insert_all insert
insert_end l =
    ap sync (sym (put-one line_feed l) ∙ put-buffer (line_feed ∷ []) l (omega arith, tt))
    ∙ sync_full _ l.buffer line_feed refl

-- What is kept by each call: bytes wait, and those that are written.
insert-written :
    (i : Insertion) (l : Log)
    → IsInsertion i
    → All IsByte l.buffer
    → All IsByte (insert i l).buffer × (written (insert i l) ≡ written l ++ bytes (i ∷ []))
unfolding insert
insert-written (byte c) l is are =
    let done = sym (put-one c l) ∙ put-buffer (c ∷ []) l (is.1, tt) in
    (
      subst (λ (l : Log). All IsByte l.buffer) (sym done)
          (All-append IsByte l.buffer (c ∷ []) are (is, tt)),
      ap written done ∙ sym (append_assoc (messages l.sent) l.buffer (c ∷ [])),
    )
insert-written (priority p) l is are = (are, sym (append-nil (written l)))
insert-written flush l is are =
    (subst (All IsByte) (sym (sync-buffer l)) tt, sync-written l are ∙ sym (append-nil (written l)))

bytes-cons : (i : Insertion) (is : List Insertion) → bytes (i ∷ is) ≡ bytes (i ∷ []) ++ bytes is
bytes-cons (byte c) is = refl
bytes-cons (priority p) is = refl
bytes-cons flush is = refl

pub insert_all-written :
    (is : List Insertion) (l : Log)
    → All IsInsertion is
    → All IsByte l.buffer
    → written (insert_all is l) ≡ written l ++ bytes is
unfolding insert_all
insert_all-written [] l all are = sym (append-nil (written l))
insert_all-written (i ∷ is) l (one, all) are =
    let (still, first) = insert-written i l one are in
    insert_all-written is (insert i l) all still
    ∙ ap (λ w. w ++ bytes is) first
    ∙ append_assoc (written l) (bytes (i ∷ [])) (bytes is)
    ∙ ap (λ b. written l ++ b) (sym (bytes-cons i is))

-- How many lines end.
abbrev pub ends : List Insertion → ℕ
ends [] = 0
ends (flush ∷ is) = suc (ends is)
ends (byte c ∷ is) = ends is
ends (priority p ∷ is) = ends is

overflow-sent : (c : ℕ) (l : Log) → (overflow (some c) l).sent ≡ l.sent
unfolding overflow
overflow-sent c l = refl

pub insert_all-length :
    (is : List Insertion) (l : Log) → length (insert_all is l).sent ≤ length l.sent + ends is
unfolding insert_all insert
insert_all-length [] l = omega arith
insert_all-length (byte c ∷ is) l =
    omega
      (arith, insert_all-length is (overflow (some c) l), ap (λ s. length s) (overflow-sent c l))
insert_all-length (priority p ∷ is) l = insert_all-length is (record l { priority = p })
insert_all-length (flush ∷ is) l = omega (arith, insert_all-length is (sync l), sync-length l)

-- No line is begun without being ended.
abbrev pub IsClosed : List Insertion → Type 0
IsClosed [] = Unit
IsClosed (i ∷ []) = i ≡ flush
IsClosed (i ∷ j ∷ is) = IsClosed (j ∷ is)

pub IsClosed-tail : (i : Insertion) (is : List Insertion) → IsClosed (i ∷ is) → IsClosed is
IsClosed-tail i [] closed = tt
IsClosed-tail i (j ∷ is) closed = closed

pub insert_all-closed :
    (i : Insertion) (is : List Insertion) (l : Log)
    → IsClosed (i ∷ is)
    → (insert_all (i ∷ is) l).buffer ≡ []
unfolding insert_all insert
insert_all-closed i [] l closed = ap (λ i. (insert i l).buffer) closed ∙ sync-buffer l
insert_all-closed i (j ∷ is) l closed = insert_all-closed j is (insert i l) closed
