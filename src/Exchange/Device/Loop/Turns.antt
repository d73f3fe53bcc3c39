-- ===== src/Exchange/Device/Loop/Turns.antt =====
-- A turn of the device's loop, by what it meets.
use onvifxx.Base.{ℕ, suc, ◌≡◌, refl, ap, ◌∙◌, true, false, some, List, [], ◌∷◌, Bool, if◌then◌else◌}
use onvifxx.Base.Chars.{Text}
use onvifxx.Base.Outcome.{Outcome, ok, fault, Fault, returned, ◌>>=◌}
use onvifxx.Device.Serving.{Heard, Served, Turn}
use onvifxx.Device.Serving.Client.{Server, next_turn, turns, after}
use onvifxx.Exchange.Device.{device}
use onvifxx.Exchange.Device.Loop.{heard_in, at_message}
use onvifxx.Exchange.Device.Loop.Notes.{heard_of, silent_turn}
use onvifxx.Exchange.Process.{Announcement, hello, bye}
use onvifxx.Exchange.Process.Numbers.{body_of}
use onvifxx.Wsdd.Gsoap.{soap_ok, Runtime, ClearsPointers}
use onvifxx.Wsdd.Proxy.{Message}
use onvifxx.Wsdd.Service.{Service, World, dispatch}
use onvifxx.Wsdd.Service.Dispatch.{deliver, hello_bye_delivered}

module _ {Peer : Type 0} (server : Server Peer) where
  -- A turn, and those behind it.
  abbrev pub and_then : Turn → Outcome (List Turn × Peer) → Outcome (List Turn × Peer)
  and_then t o = o >>= λ r. ok (t ∷ r.0, r.1)

  abbrev ended : Bool → Peer → Outcome ((List Heard × Served) × Peer) → Outcome (Turn × Peer)
  ended fails q o =
      if fails
      then ok (silent_turn, q)
      else (o >>= λ r. ok (
        record { stopped = false; accept_fails = false; heard = r.0.0; serves = r.0.1 },
        after server r.0.1 r.1,
      ))

  abbrev behind : ℕ → Outcome (Turn × Peer) → Outcome (List Turn × Peer)
  behind n o = o >>= λ r. and_then r.0 (turns server n r.1)

  turns-ended :
      (n : ℕ) (p : Peer)
      → turns server (suc n) p
        ≡ behind n
            (ended (server.accept p).0 (server.accept p).1 (server.serve (server.accept p).1))
  unfolding turns next_turn
  turns-ended n p = refl

  pub turn_refused :
      (n : ℕ) (p : Peer)
      → (server.accept p).0 ≡ true
      → turns server (suc n) p ≡ and_then silent_turn (turns server n (server.accept p).1)
  turn_refused n p fails =
      let q = (server.accept p).1 in
      turns-ended n p ∙ ap (λ b. behind n (ended b q (server.serve q))) fails

  pub turn_served :
      (n : ℕ) (p r : Peer) (calls : List Heard) (result : Served)
      → (server.accept p).0 ≡ false
      → server.serve (server.accept p).1 ≡ ok ((calls, result), r)
      → turns server (suc n) p
        ≡ and_then
            (record { stopped = false; accept_fails = false; heard = calls; serves = result })
            (turns server n (after server result r))
  turn_served n p r calls result works served =
      let q = (server.accept p).1 in
      turns-ended n p
      ∙ ap (λ b. behind n (ended b q (server.serve q))) works
      ∙ ap (λ o. behind n (ended false q o)) served

  pub turn_stopped :
      (n : ℕ) (p : Peer) (e : Fault)
      → (server.accept p).0 ≡ false
      → server.serve (server.accept p).1 ≡ fault e
      → turns server (suc n) p ≡ fault e
  turn_stopped n p e works stops =
      let q = (server.accept p).1 in
      turns-ended n p
      ∙ ap (λ b. behind n (ended b q (server.serve q))) works
      ∙ ap (λ o. behind n (ended false q o)) stops

-- A message that says an announcement is one call of the device.
pub announcement_served :
    (split : Text → List Text) (rt : Runtime) (clears : ClearsPointers rt) (env : World)
    (a : Announcement) (m : Message) (s : Service)
    → s.p ≡ some (device split)
    → m.body ≡ body_of rt a
    → (s' : Service) × (dispatch env (deliver rt env m.body) (at_message m s)
        ≡ ok (returned soap_ok, s'))
      × (heard_in s'.events ≡ heard_of a ∷ [])
      × (s'.p ≡ some (device split))
      × (s'.matches ≡ s.matches)
unfolding heard_in device
announcement_served split rt clears env (hello arg) m s bound says =
    let s0 = at_message m s in
    (
      _,
      ap (λ b. dispatch env (deliver rt env b) s0) says
          ∙ (hello_bye_delivered rt env clears arg s0 (device split) bound).0,
      refl,
      bound,
      refl,
    )
announcement_served split rt clears env (bye arg) m s bound says =
    let s0 = at_message m s in
    (
      _,
      ap (λ b. dispatch env (deliver rt env b) s0) says
          ∙ (hello_bye_delivered rt env clears arg s0 (device split) bound).1,
      refl,
      bound,
      refl,
    )
