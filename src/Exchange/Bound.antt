-- ===== src/Exchange/Bound.antt =====
-- `bind` of a service (wsdd/remotediscovery_service.cpp), and who hears what arrives behind it.
use onvifxx.Base.{
  ℕ, ◌≡◌, sym, ◌∙◌, ◌↔◌, Bool, true, Option, some, List, [], ◌∷◌, ◌==◌, if◌then◌else◌,
}
use onvifxx.Base.Outcome.{ok}
use onvifxx.Exchange.Delivery.{Says, heard_by, messages_heard}
use onvifxx.Exchange.Process.{Announcement}
use onvifxx.Exchange.Receiving.{receive_all}
use onvifxx.Wsdd.Gsoap.{Header, Runtime, ClearsPointers}
use onvifxx.Wsdd.Service.{Service, Handler, World, bind, base_bind, io_udp, xml_ignorens}
use onvifxx.Wsdd.Service.Bind.{bind-base_bind, bind-bound}
use onvifxx.Wsdd.Proxy.{Message}

-- A service that is bound twice. The second `bind` returns a socket exactly if that is the one which is
-- bound on the port, 3702 for 0, and which has joined the multicast group. Messages that say
-- announcements and arrive behind it are heard by its object, in order, and not by the earlier one,
-- where `soap_default` clears pointers. The service is then as if it had been bound once. It has the
-- socket of the generated `bind` also where that has not joined the group, and is over UDP without name
-- spaces. The form of `BaseService` differs in two things: it keeps the mode that was there, and its
-- port for 0 is 80.
pub bind_heard :
    (rt : Runtime) (clears : ClearsPointers rt) (env : World) (binds : ℕ → Option ℕ)
    (joins : ℕ → Bool) (earlier obj : Handler) (port : ℕ) (s : Service) (ds : List Message)
    (said : List Announcement)
    → Says rt ds said
    → let before = (bind binds joins earlier 0 s).1 in
      let (socket, bound) = bind binds joins obj port before in
      ((n : ℕ)
        → (socket ≡ some n)
          ↔ ((binds (if port == 0 then 3702 else port) ≡ some n) × (joins n ≡ true)))
      × ((h : Option Header) × (receive_all rt env ds bound ≡ ok (heard_by obj said h bound)))
      × ((bind binds joins obj port s).1 ≡ bound)
      × (bound.socket ≡ binds (if port == 0 then 3702 else port))
      × (bound.mode ≡ io_udp ∷ xml_ignorens ∷ [])
      × ((base_bind binds obj port s).1
          ≡ record bound { mode = s.mode; socket = binds (if port == 0 then 80 else port) })
bind_heard rt clears env binds joins earlier obj port s ds said says =
    let before = (bind binds joins earlier 0 s).1 in
    let (bound, _, _, socket) = bind-base_bind binds joins obj port before in
    let (first, _) = bind-bound binds joins earlier 0 s in
    let (second, _) = bind-bound binds joins obj port before in
    let (once, based) = bind-bound binds joins obj port s in
    let mode = io_udp ∷ xml_ignorens ∷ [] in
    let master = binds (if port == 0 then 3702 else port) in
    let same =
      once
      ∙ (λ i. record (sym first i) { p = some obj; mode = mode; socket = master })
      ∙ sym second in
    (
      socket,
      messages_heard rt clears env obj ds said _ bound says,
      same,
      (λ i. (second i).socket),
      (λ i. (second i).mode),
      based ∙ (λ i. record ((sym once ∙ same) i) {
        mode = s.mode;
        socket = binds (if port == 0 then 80 else port);
      }),
    )
