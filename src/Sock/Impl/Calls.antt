-- ===== src/Sock/Impl/Calls.antt =====
-- The calls that gSOAP makes through the callbacks of `Sock::Impl`, in any order.
use onvifxx.Base.{ℕ, Option, List, [], ◌∷◌}
use onvifxx.Base.Chars.{Text}
use onvifxx.Base.Outcome.{Outcome, ok, ◌>>=◌}
use onvifxx.Sock.Asio.{Asio}
use onvifxx.Sock.Impl.{Soap, connect, open_endpoint, close, send, recv, checked, resolve, serveloop}

pub data Call : Type 0 where
  opens connects : Text → Text → ℕ → Call
  closes polls ignores accepts serves : Call
  sends : Text → Call
  receives : ℕ → Call
  resolves : Text → Call

module _ {asio : Asio} (resolver : Text → Text → Option ℕ) where
  -- the state that a call leaves
  unfoldable pub step : Call → Soap asio → Outcome (Soap asio)
  unfolding open_endpoint
  step (opens endpoint host port) w = do r ← open_endpoint endpoint host port w; ok r.1
  step (connects endpoint host port) w = do r ← connect endpoint host port w; ok r.1
  step closes w = do r ← close w; ok r.1
  step polls w = do r ← checked w; ok r.1
  step ignores w = do r ← checked w; ok r.1
  step accepts w = do r ← checked w; ok r.1
  step serves w = do r ← serveloop w; ok r.1
  step (sends text) w = do r ← send text w; ok r.1
  step (receives n) w = do r ← recv n w; ok r.2
  step (resolves addr) w = do r ← resolve resolver addr w; ok r.2

  unfoldable pub run : List Call → Soap asio → Outcome (Soap asio)
  run [] w = ok w
  run (c ∷ cs) w = do w' ← step c w; run cs w'
