-- ===== src/Device/Log.antt =====
-- `class Log` (examples/ws-discovery/log.hpp and log.cpp): a stream buffer that writes to the system
-- log.
pub mod Lines
pub mod Shared
use onvifxx.Base.{
  ℕ, ◌%◌, Option, none, some, List, [], ◌∷◌, ◌++◌, ◌==◌, if◌then◌else◌, length, take,
}
use onvifxx.Base.Chars.{Text}
use onvifxx.Base.Outcome.{Outcome, ok, fault, wrong_cast}

-- `LOG_DEBUG`
abbrev pub debug : ℕ
debug = 7

-- `sent` is what `syslog` was called with: the priority, and the text of the format.
pub record Log : Type 0 where
  pub ident : Text
  pub facility : ℕ
  pub priority : ℕ
  pub buffer : Text
  pub sent : List (ℕ × Text)

-- `Log(ident, facility)`: `strncpy` into 50 bytes, the last of which is set to zero
unfoldable pub create : Text → ℕ → Log
create ident facility = record {
  ident = take 49 ident;
  facility = facility;
  priority = debug;
  buffer = [];
  sent = [];
}

-- `c_str()`, as a function that is given it reads it: up to the first zero.
unfoldable pub c_str : Text → Text
c_str [] = []
c_str (c ∷ cs) = let rest = c_str cs in if c == 0 then [] else c ∷ rest

pub sync : Log → Log
sync l =
    let done = record l {
      sent = l.sent ++ (l.priority, c_str l.buffer) ∷ [];
      buffer = [];
      priority = debug;
    } in
    if length l.buffer == 0 then l else done

-- `none` is EOF
pub overflow : Option ℕ → Log → Log
unfolding sync
overflow none l = sync l
overflow (some c) l = record l { buffer = l.buffer ++ (c % 256) ∷ [] }

-- The buffer of `std::clog`: a `Log`, or the one that the standard library put there.
pub data Stream : Type 0 where
  standard : Stream
  to_log : Log → Stream

-- `os << priority` takes the buffer for a `Log`.
unfoldable pub set_priority : ℕ → Stream → Outcome Stream
set_priority p standard = fault wrong_cast
set_priority p (to_log l) = ok (to_log (record l { priority = p }))
