-- ===== src/Wsdd/Service/Bind.antt =====
-- The two forms of `bind`: of the service (wsdd/remotediscovery_service.cpp), and of `BaseService`
-- (include/onvifxx/onvifxx.hpp).
use onvifxx.Base.{ℕ, ◌≡◌, ◌↔◌, refl, Bool, true, Option, some, [], ◌∷◌, ◌==◌, if◌then◌else◌, arith}
use onvifxx.Wsdd.Service.{Service, Handler, bind, base_bind, io_udp, xml_ignorens}

-- Both forms bind the service to the object, whether or not they succeed. The base form returns what the
-- generated `bind` does, on port 80 for 0. The service's form returns a socket exactly if that is the
-- one which is bound on the port, 3702 for 0, and which has joined the multicast group.
pub bind-base_bind :
    (binds : ℕ → Option ℕ) (joins : ℕ → Bool) (obj : Handler) (port : ℕ) (s : Service)
    → ((bind binds joins obj port s).1.p ≡ some obj)
      × ((base_bind binds obj port s).1.p ≡ some obj)
      × ((base_bind binds obj port s).0 ≡ binds (if port == 0 then 80 else port))
      × ((socket : ℕ)
          → ((bind binds joins obj port s).0 ≡ some socket)
            ↔ ((binds (if port == 0 then 3702 else port) ≡ some socket) × (joins socket ≡ true)))
unfolding bind base_bind
bind-base_bind binds joins obj port s = (ground arith, refl, refl, λ socket. ground arith)

-- The service's form sets the object and the mode, and both leave the socket that was bound, even where
-- it has not joined the group.
pub bind-bound :
    (binds : ℕ → Option ℕ) (joins : ℕ → Bool) (obj : Handler) (port : ℕ) (s : Service)
    → ((bind binds joins obj port s).1 ≡ record s {
      p = some obj;
      mode = io_udp ∷ xml_ignorens ∷ [];
      socket = binds (if port == 0 then 3702 else port);
    })
      × ((base_bind binds obj port s).1
          ≡ record s { p = some obj; socket = binds (if port == 0 then 80 else port) })
unfolding bind base_bind
bind-bound binds joins obj port s = (ground arith, refl)
