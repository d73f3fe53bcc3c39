-- ===== src/Device/Threads/Logged.antt =====
-- The log of the whole program: two threads that write to one `Log` (examples/ws-discovery/wsdd.cpp,
-- log.cpp).
use onvifxx.Base.{
  ℕ, ◌+◌, ◌≤◌, ◌≡◌, refl, sym, ap, subst, ◌∙◌, Option, none, some, List, [], ◌∷◌, ◌++◌, map, length,
  All, subst₂, if◌then◌else◌, arith,
}
use onvifxx.Base.Chars.{codes, Text}
use onvifxx.Device.Log.{c_str, Log}
use onvifxx.Device.Log.Lines.{whole, Line}
use onvifxx.Device.Log.Shared.{
  IsClosed, Insertion, begun, insertions, all_insertions, insert_all, Shuffle, bytes, messages,
}
use onvifxx.Device.Log.Shared.Lines.{
  insert_all-append, insert_line, closed_buffer, lines-IsClosed, IsWhole, IsWhole-IsLine,
  IsWhole-c_str,
}
use onvifxx.Device.Log.Shared.Shuffles.{Shuffle-IsClosed}
use onvifxx.Device.Log.Shared.Threads.{shared_lines}
use onvifxx.Device.Main.{round_notes, handler_notes, all_handler_notes}
use onvifxx.Device.Notes.{log, note_insertions, Note, line_of, all_note_insertions}
use onvifxx.Device.Serving.{Action, told}
use onvifxx.Device.Threads.{System}
use onvifxx.Device.Threads.Runs.Exec.{HasEnded-done}
use onvifxx.Device.Threads.Runs.Realised.{Run-done}
use onvifxx.Device.Threads.Told.{IsEnded, told-IsEnded}
use onvifxx.Device.Threads.Calls.{HasEnded-once}
use onvifxx.Device.Threads.Ending.{HasEnded}
use onvifxx.Device.Threads.Runs.{IsRun, Run}

round-IsEnded : (call : Option ℕ) → All IsEnded (round_notes (call ∷ []))
unfolding all_handler_notes handler_notes
round-IsEnded none = (refl, (refl, tt))
round-IsEnded (some n) = (refl, (refl, (refl, (refl, tt))))

-- What the main thread writes before its last line, for which it waits until the other thread is done.
abbrev pub earlier_notes : List (Option ℕ) → List Note
earlier_notes ss = log 48 (codes "Running service") ∷ all_handler_notes ss

earlier-IsEnded : (call : Option ℕ) → All IsEnded (earlier_notes (call ∷ []))
unfolding all_handler_notes handler_notes
earlier-IsEnded none = (refl, tt)
earlier-IsEnded (some n) = (refl, (refl, (refl, tt)))

module _ (place : ℕ → Text) where
  abbrev pub lines_of : List Note → List Line
  lines_of notes = map (line_of place) notes

  whole_notes :
      (notes : List Note)
      → All IsEnded notes
      → all_note_insertions place notes ≡ all_insertions (lines_of notes)
  whole_notes [] is = refl
  whole_notes (n ∷ notes) (one, is) =
      ap
        (λ b.
          (if b then insertions (line_of place n) else begun (line_of place n))
          ++ all_note_insertions place notes)
        one
      ∙ ap (λ l. insertions (line_of place n) ++ l) (whole_notes notes is)

  length-lines_of : (notes : List Note) → length (lines_of notes) ≡ length notes
  length-lines_of [] = refl
  length-lines_of (n ∷ notes) = omega (arith, length-lines_of notes)

  -- The last line of the main thread is bytes where all its lines are.
  stopped-IsWhole :
      (call : Option ℕ)
      → All IsWhole (lines_of (round_notes (call ∷ [])))
      → IsWhole (line_of place (log 51 (codes "Service stopped")))
  unfolding all_handler_notes handler_notes
  stopped-IsWhole none are = are.1.0
  stopped-IsWhole (some n) are = are.1.1.1.0

  -- A line behind insertions of which none is left open.
  last_line :
      (zs : List Insertion) (n : ℕ) (words : Text) (l : Log)
      → IsWhole (line_of place (log n words))
      → IsClosed zs
      → l.buffer ≡ []
      → (insert_all (zs ++ note_insertions place (log n words)) l).sent
        ≡ (insert_all zs l).sent
          ++ ((insert_all zs l).priority, whole (line_of place (log n words))) ∷ []
  last_line zs n words l are closed start =
      let line = line_of place (log n words) in
      let (a, b) = IsWhole-IsLine line are in
      let empty = closed_buffer zs l closed start in
      let m = insert_all zs l in
      ap (λ l. l.sent) (insert_all-append zs (note_insertions place (log n words)) l)
      ∙ ap (λ l. l.sent) (insert_line none (place n) words m a b)
      ∙ (λ i. m.sent ++ (m.priority, c_str (empty i ++ whole line)) ∷ [])
      ∙ ap (λ t. m.sent ++ (m.priority, t) ∷ []) (IsWhole-c_str line are)

  -- A run of the two threads in which the main thread has ended, and any order of their calls of the
  -- buffer of one log in which nothing waits: a call for each byte, the priorities that are set, and a
  -- flush behind the line feed of each line. The handler was called once, with a signal or with an error;
  -- the main thread wrote the notes of one round of `exec` with that call, and the thread of the service
  -- those of a whole run of `runService`. If no call of the buffer is cut by another, which nothing in
  -- the code ensures, no byte is lost: nothing waits at the end, there are at most as many messages as
  -- notes, and their bytes are those of the two threads, each in its order. If the last line of the main
  -- thread comes behind all else, as it does since that waits for the other, it is the last message, in
  -- one piece. What `LOG` writes, for the place and as a text, is bytes, and none of them is zero.
  pub run_logged :
      (s : System) (acts : List Action) (ss : List (Option ℕ)) (l : Log)
      → Run s acts ss
      → HasEnded s
      → All IsWhole (lines_of (round_notes ss))
      → All IsWhole (lines_of (told acts))
      → l.buffer ≡ []
      → ((call : Option ℕ) × (ss ≡ call ∷ []))
        × IsRun acts
        × ((zs : List Insertion)
            → let mine = all_note_insertions place (round_notes ss) in
              let others = all_note_insertions place (told acts) in
              Shuffle mine others zs
              → let l' = insert_all zs l in
                (length l'.sent ≤ length l.sent + (length (round_notes ss) + length (told acts)))
                × (l'.buffer ≡ [])
                × (messages l'.sent ≡ messages l.sent ++ bytes zs)
                × Shuffle (bytes mine) (bytes others) (bytes zs))
        × ((zs : List Insertion)
            → Shuffle
                (all_note_insertions place (earlier_notes ss))
                (all_note_insertions place (told acts))
                zs
            → let stopped = log 51 (codes "Service stopped") in
              (insert_all (zs ++ note_insertions place stopped) l).sent
              ≡ (insert_all zs l).sent
                ++ ((insert_all zs l).priority, whole (line_of place stopped)) ∷ [])
  run_logged s acts ss l r over are be idle =
      let (call, once) = HasEnded-once r over in
      let mine : all_note_insertions place (round_notes ss)
          ≡ all_insertions (lines_of (round_notes ss)) =
        whole_notes (round_notes ss)
          (subst (λ ss. All IsEnded (round_notes ss)) (sym once) (round-IsEnded call)) in
      let others = whole_notes (told acts) (told-IsEnded r) in
      (
        (call, once),
        Run-done r (HasEnded-done r over),
        λ zs shuffled.
            let (count, over, same, bytes_shuffled) =
              (shared_lines (lines_of (round_notes ss)) (lines_of (told acts)) l are be idle).0 zs
                (subst₂ (λ xs ys. Shuffle xs ys zs) mine others shuffled) in
            (
              omega (arith, count, length-lines_of (round_notes ss), length-lines_of (told acts)),
              over,
              same,
              subst₂ (λ xs ys. Shuffle (bytes xs) (bytes ys) (bytes zs)) (sym mine) (sym others)
                  bytes_shuffled,
            ),
        λ zs shuffled.
            let earlier =
              whole_notes (earlier_notes ss)
                (subst (λ ss. All IsEnded (earlier_notes ss)) (sym once) (earlier-IsEnded call)) in
            last_line zs 51 (codes "Service stopped") l
              (stopped-IsWhole call
                (subst (λ ss. All IsWhole (lines_of (round_notes ss))) once are))
              (Shuffle-IsClosed (subst₂ (λ xs ys. Shuffle xs ys zs) earlier others shuffled)
                (lines-IsClosed (lines_of (earlier_notes ss)))
                (lines-IsClosed (lines_of (told acts))))
              idle,
      )
