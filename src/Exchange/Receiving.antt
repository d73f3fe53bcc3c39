-- ===== src/Exchange/Receiving.antt =====
-- Messages as a service receives them: gSOAP's `soap_serve` before `dispatch`
-- (wsdd/remotediscovery_service.cpp).
use onvifxx.Base.{List, [], ◌∷◌}
use onvifxx.Base.Outcome.{Outcome, ok, ◌>>=◌}
use onvifxx.Wsdd.Gsoap.{Runtime}
use onvifxx.Wsdd.Proxy.{Message}
use onvifxx.Wsdd.Service.{Service, World, dispatch}
use onvifxx.Wsdd.Service.Dispatch.{deliver}

-- gSOAP leaves the header of a message in the `struct soap` that receives it.
abbrev pub received : Message → Service → Service
received m s = record s { wsa = record (s.wsa) { header = m.header } }

-- Messages in the order in which they arrive.
unfoldable pub receive_all : Runtime → World → List Message → Service → Outcome Service
receive_all rt env [] s = ok s
receive_all rt env (m ∷ ms) s = do
  r ← dispatch env (deliver rt env m.body) (received m s)
  receive_all rt env ms r.1
