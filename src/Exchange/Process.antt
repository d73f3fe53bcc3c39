-- ===== src/Exchange/Process.antt =====
-- The proxies of one process (wsdd/wsa.cpp, wsdd/remotediscovery_proxy.cpp). Each has its own `Wsa`, and
-- all share the static variables of its functions.
pub mod Numbers
use onvifxx.Base.{ℕ, Option, none, some, List, [], ◌∷◌, ◌==◌, if◌then◌else◌}
use onvifxx.Base.Chars.{Text}
use onvifxx.Base.Int.{ℤ}
use onvifxx.Base.Outcome.{Outcome, ok, Ended, ◌>>=◌}
use onvifxx.Wsdd.Gsoap.{Runtime}
use onvifxx.Wsdd.Messages.{ProbeMatch}
use onvifxx.Wsdd.Proxy
use onvifxx.Wsdd.Proxy.{Proxy, Message}
use onvifxx.Wsdd.Wsa.{State}

-- `static` in `instanceId`, `sequenceId`, `messageNumber` and `randUuid`
pub record Statics : Type 0 where
  pub instance_rv : Option ℕ
  pub sequence_rv : Text
  pub message_rv : ℕ
  pub seed : ℤ

unfoldable pub statics_of : State → Statics
statics_of s = record {
  instance_rv = s.instance_rv;
  sequence_rv = s.sequence_rv;
  message_rv = s.message_rv;
  seed = s.seed;
}

unfoldable pub with_statics : Statics → State → State
with_statics v s = record s {
  instance_rv = v.instance_rv;
  sequence_rv = v.sequence_rv;
  message_rv = v.message_rv;
  seed = v.seed;
}

-- The proxies by a number each, and what has left the process.
pub record Process : Type 0 where
  pub statics : Statics
  pub proxies : ℕ → State
  pub sent : List Message

pub data Announcement : Type 0 where
  hello bye : ProbeMatch → Announcement

-- A call of proxy `who`, with what it is given from outside.
pub record Call : Type 0 where
  pub who : ℕ
  pub env : Proxy.World
  pub what : Announcement

module _ (rt : Runtime) where
  unfoldable pub announce : Call → Proxy → Outcome (Ended (Unit {0}) × Proxy)
  announce c p = elim c.what [
    | hello arg ↦ Proxy.hello rt c.env arg p
    | bye arg ↦ Proxy.bye rt c.env arg p
  ]

  -- The caller goes on whether or not the call throws.
  pub step : Call → Process → Outcome Process
  unfolding announce statics_of with_statics
  step c w = do
    r ← announce c (record { wsa = with_statics w.statics (w.proxies c.who); sent = w.sent })
    ok (record {
      statics = statics_of (r.1.wsa);
      proxies = λ i. if i == c.who then r.1.wsa else w.proxies i;
      sent = r.1.sent;
    })

  pub run : List Call → Process → Outcome Process
  run [] w = ok w
  run (c ∷ cs) w = do w' ← step c w; run cs w'
