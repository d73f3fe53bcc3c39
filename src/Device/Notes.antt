-- ===== src/Device/Notes.antt =====
-- What the example writes to `std::clog` with `LOG` and its like (examples/ws-discovery/log.hpp), as
-- calls of it: the line of wsdd.cpp, the priority of the macro, and the text.
use onvifxx.Base.{ℕ, Bool, true, Option, none, some, List, [], ◌∷◌, ◌++◌, if◌then◌else◌}
use onvifxx.Base.Chars.{Text}
use onvifxx.Device.Log.Lines.{Line}
use onvifxx.Device.Log.Shared.{Insertion, begun, insertions}

-- `ends` is whether `std::endl` stands at its end.
pub record Note : Type 0 where
  pub line : ℕ
  pub priority : Option ℕ
  pub text : Text
  pub ends : Bool

-- `LOG_INFO`, `LOG_WARNING`, `LOG_ERR`
abbrev pub info : ℕ
info = 6

abbrev pub warning : ℕ
warning = 4

abbrev pub error : ℕ
error = 3

-- `LOG << text << std::endl`
abbrev pub log : ℕ → Text → Note
log line text = record { line = line; priority = none; text = text; ends = true }

-- `LOG_I`, `LOG_W` and `LOG_E`
abbrev pub log_at : ℕ → ℕ → Text → Note
log_at priority line text = record {
  line = line;
  priority = some priority;
  text = text;
  ends = true;
}

-- `place n` is what `LOG` writes first at line `n`: the name of the file, and the number.
module _ (place : ℕ → Text) where
  abbrev pub line_of : Note → Line
  line_of n = record { place = place n.line; priority = n.priority; text = n.text }

  abbrev pub note_insertions : Note → List Insertion
  note_insertions n = if n.ends then insertions (line_of n) else begun (line_of n)

  abbrev pub all_note_insertions : List Note → List Insertion
  all_note_insertions [] = []
  all_note_insertions (n ∷ notes) = note_insertions n ++ all_note_insertions notes
