-- ===== src/Exchange/Node.antt =====
-- A process with proxies and services, as the example device is one (examples/ws-discovery/wsdd.cpp): all
-- have a `Wsa` of their own, and share the static variables of wsdd/wsa.cpp.
pub mod Numbers
pub mod Stamps
use onvifxx.Base.{ℕ, Option, none, some, List, [], ◌∷◌, ◌++◌, map, ◌==◌, if◌then◌else◌}
use onvifxx.Base.Outcome.{Outcome, ok, Ended, ◌>>=◌}
use onvifxx.Exchange.Process.{Statics, statics_of, with_statics, Call, announce}
use onvifxx.Wsdd.Gsoap.{AppSequence, Header, Runtime}
use onvifxx.Wsdd.Proxy.{Proxy, World, Message, probe}
use onvifxx.Wsdd.Messages.{Probe}
use onvifxx.Wsdd.Service
use onvifxx.Wsdd.Service.{response_header}
use onvifxx.Wsdd.Wsa.{State}

-- A proxy says hello or bye, a proxy asks, or a service receives a probe with a header and makes the
-- header of its answer.
pub data Act : Type 0 where
  calls : Call → Act
  asks : ℕ → World → Probe → Act
  answers : ℕ → Service.World → Header → Act

-- The objects by a number each, the sequences of the announcements and answers that have left, and the
-- probes.
pub record Node : Type 0 where
  pub statics : Statics
  pub owners : ℕ → State
  pub stamps : List AppSequence
  pub probes : List Message

-- What a call leaves: the state of the object `who`, and the static variables.
abbrev pub left : ℕ → State → List AppSequence → Node → Node
left who s stamps n = record {
  statics = statics_of s;
  owners = λ i. if i == who then s else n.owners i;
  stamps = n.stamps ++ stamps;
  probes = n.probes;
}

module _ (rt : Runtime) where
  unfoldable pub act : Act → Node → Outcome Node
  act (calls c) n = do
    r ← announce rt c (record { wsa = with_statics n.statics (n.owners c.who); sent = [] })
    ok (left c.who (r.1.wsa) (map (λ m. m.sequence) (r.1.sent)) n)
  act (asks who env arg) n = do
    r ← probe rt env arg (record { wsa = with_statics n.statics (n.owners who); sent = n.probes })
    ok (record (left who (r.1.wsa) [] n) { probes = r.1.sent })
  act (answers who env asked) n = do
    w ←
        response_header rt env
          (record (with_statics n.statics (n.owners who)) { header = some asked })
    ok (left who w (w.sequence ∷ []) n)

  unfoldable pub act_all : List Act → Node → Outcome Node
  act_all [] n = ok n
  act_all (a ∷ acts) n = do n' ← act a n; act_all acts n'
