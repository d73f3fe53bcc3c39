-- ===== src/Device/Serving/Client.antt =====
-- The loop of `runService` (examples/ws-discovery/wsdd.cpp) as a client of `Service`
-- (include/onvifxx/onvifxx.hpp): the turns that it has are what the service makes of its calls.
use onvifxx.Base.{ℕ, zero, suc, Bool, true, false, List, [], ◌∷◌, if◌then◌else◌}
use onvifxx.Base.Outcome.{Outcome, ok, ◌>>=◌}
use onvifxx.Device.Serving.{Heard, Served, served, no_request, Turn}

-- `Service<T>` with its state: whether `accept` fails, what `serve` returns, with the calls of the object
-- that `serve` makes, and `destroy`.
pub record Server (Peer : Type 0) : Type 0 where
  pub accept : Peer → Bool × Peer
  pub serve : Peer → Outcome ((List Heard × Served) × Peer)
  pub destroy : Peer → Peer

-- `serve` returned, and `destroy` is called if it returned 0.
unfoldable pub after : {Peer : Type 0} → Server Peer → Served → Peer → Peer
after server served p = server.destroy p
after server _ p = p

module _ {Peer : Type 0} (server : Server Peer) where
  -- A turn that is not the last.
  unfoldable pub next_turn : Peer → Outcome (Turn × Peer)
  unfolding after
  next_turn p =
      let (fails, q) = server.accept p in
      let request = (do
        ((calls, serves), r) ← server.serve q
        ok (
          record { stopped = false; accept_fails = false; heard = calls; serves = serves },
          after server serves r,
        )) in
      if fails
      then ok (record { stopped = false; accept_fails = true; heard = []; serves = no_request }, q)
      else request

  unfoldable pub turns : ℕ → Peer → Outcome (List Turn × Peer)
  turns zero p = ok ([], p)
  turns (suc n) p = do (t, q) ← next_turn p; (ts, r) ← turns n q; ok (t ∷ ts, r)
