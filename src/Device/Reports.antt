-- ===== src/Device/Reports.antt =====
-- What the example device writes to `std::clog` when it is made, called and destroyed: `Wsdd::Wsdd`,
-- `hello`, `bye`, `probe` and `Wsdd::~Wsdd` (examples/ws-discovery/wsdd.cpp).
use onvifxx.Base.{ℕ, Option, none, some, List, [], ◌++◌}
use onvifxx.Base.Chars.{Text, codes}
use onvifxx.Base.Outcome.{Outcome, ok, ◌>>=◌}
use onvifxx.Device.Log.{Stream}
use onvifxx.Device.Log.Lines.{Line, write_line}
use onvifxx.Device.Matching
use onvifxx.Device.Notes.{Note, info, log, log_at, line_of}
use onvifxx.Wsdd.Messages.{ProbeMatch, Probe, Scopes}

-- `p != nullptr ? *p : ""`
abbrev pub or_empty : Option Text → Text
or_empty none = []
or_empty (some t) = t

-- `p != nullptr ? p->item : ""`
abbrev pub item_or_empty : Option Scopes → Text
item_or_empty none = []
item_or_empty (some s) = s.item

-- The three texts of an announcement, behind the name of the method and an opening parenthesis.
abbrev announcement_text : Text → ProbeMatch → Text
announcement_text name arg =
    name
    ++ (or_empty arg.xaddrs
        ++ (codes ", "
            ++ (or_empty arg.types ++ (codes ", " ++ (item_or_empty arg.scopes ++ codes ")")))))

abbrev pub hello_text : ProbeMatch → Text
hello_text arg = announcement_text (codes "hello(") arg

abbrev pub bye_text : ProbeMatch → Text
bye_text arg = announcement_text (codes "bye(") arg

abbrev pub probe_text : Probe → Text
probe_text arg =
    codes "probe("
    ++ (or_empty arg.types ++ (codes ", " ++ (item_or_empty arg.scopes ++ codes ")")))

abbrev pub hello_note : ProbeMatch → Note
hello_note arg = log 62 (hello_text arg)

abbrev pub bye_note : ProbeMatch → Note
bye_note arg = log 71 (bye_text arg)

abbrev pub probe_note : Probe → Note
probe_note arg = log 80 (probe_text arg)

-- `place n` is what `LOG` writes first at line `n` of the file: its name, and the number.
module _ (place : ℕ → Text) where
  -- `Wsdd()`
  unfoldable pub create : Stream → Outcome Stream
  create = write_line (line_of place (log_at info 15 (codes "start")))

  -- `~Wsdd()`
  unfoldable pub destroy : Stream → Outcome Stream
  destroy = write_line (line_of place (log_at info 34 (codes "exit")))

  abbrev pub hello_line : ProbeMatch → Line
  hello_line arg = line_of place (hello_note arg)

  unfoldable pub hello : ProbeMatch → Stream → Outcome Stream
  hello arg = write_line (hello_line arg)

  abbrev pub bye_line : ProbeMatch → Line
  bye_line arg = line_of place (bye_note arg)

  unfoldable pub bye : ProbeMatch → Stream → Outcome Stream
  bye arg = write_line (bye_line arg)

  abbrev pub probe_line : Probe → Line
  probe_line arg = line_of place (probe_note arg)

  -- `probe`, for the matches that `runService` has filled
  unfoldable pub probe :
      (Text → List Text) → Probe → List ProbeMatch → Stream → Outcome (List ProbeMatch × Stream)
  probe split arg matches s = do
    s' ← write_line (probe_line arg) s
    items ← Matching.probe split arg matches
    ok (items, s')
