-- ===== src/Wsdd/Service/Unbound.antt =====
-- A service without an object, as `RemoteDiscoveryService()` and `copy` of
-- wsdd/remotediscovery_service.cpp make it.
use onvifxx.Base.{◌≡◌, refl, sym, ap, ◌∙◌, map, append_assoc, append-nil, none, List, [], ◌∷◌}
use onvifxx.Base.Outcome.{ok, Ended, returned, ◌>>=◌}
use onvifxx.Wsdd.Gsoap.{Code, soap_ok, soap_user_error, Runtime}
use onvifxx.Wsdd.Proxy.{Body, hello_body, bye_body, probe_body}
use onvifxx.Wsdd.Service.{
  Service, closed_socket, World, log, copy, create, hello, bye, probe, dispatch, after_base,
}
use onvifxx.Wsdd.Service.Dispatch.{deliver}
use onvifxx.Wsdd.Service.Run.{serve_all}
use onvifxx.Wsdd.Wsa.{State}

module _ (rt : Runtime) (env : World) where
  -- Every method returns before it looks for an object.
  unbound_method :
      (m : Body) (s : Service) → s.p ≡ none → deliver rt env m s ≡ ok (returned soap_user_error, s)
  unfolding hello bye probe
  unbound_method (hello_body m version) s free = simp free
  unbound_method (bye_body m version) s free = simp free
  unbound_method (probe_body m) s free = simp free

  unbound_dispatch :
      (m : Body) (s : Service)
      → s.p ≡ none
      → dispatch env (deliver rt env m) s ≡ ok (returned soap_ok, log s (closed_socket ∷ []))
  unfolding dispatch after_base
  unbound_dispatch m s free =
      ap (λ o. o >>= λ (r : Ended Code × Service). ok (after_base env r)) (unbound_method m s free)

  unbound_served :
      (ms : List Body) (s : Service)
      → s.p ≡ none
      → serve_all rt env ms s ≡ ok (log s (map (λ m. closed_socket) ms))
  unfolding serve_all
  unbound_served [] s free = ap (λ l. ok (record s { events = l })) (sym (append-nil s.events))
  unbound_served (m ∷ ms) s free =
      ap (λ o. o >>= λ (r : Ended Code × Service). serve_all rt env ms r.1)
        (unbound_dispatch m s free)
      ∙ unbound_served ms (log s (closed_socket ∷ [])) free
      ∙ ap (λ l. ok (record s { events = l })) (append_assoc s.events (closed_socket ∷ []) _)

  -- A service that is bound to no object gets through any messages: it closes the socket after each, and
  -- does nothing else. So does a copy of any service, whatever object that one is bound to.
  pub copy_unheard :
      (ms : List Body) (w : State) (s : Service)
      → (s.p ≡ none → serve_all rt env ms s ≡ ok (log s (map (λ m. closed_socket) ms)))
        × (serve_all rt env ms (copy rt w s) ≡ ok (log (copy rt w s) (map (λ m. closed_socket) ms)))
  unfolding copy create
  copy_unheard ms w s = (unbound_served ms s, unbound_served ms (create rt w) refl)
