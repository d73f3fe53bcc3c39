-- ===== src/Wsdd/Service.antt =====
-- `RemoteDiscoveryService` of wsdd/remotediscovery_service.cpp, and `BaseService` of
-- include/onvifxx/onvifxx.hpp: the server side of the discovery.
pub mod Output
pub mod Dispatch
pub mod Handlers
pub mod Run
pub mod Bind
pub mod Unbound
use onvifxx.Base.{
  ℕ, zero, suc, ◌+◌, Bool, true, false, not, ◌&&◌, Option, none, some, List, [], ◌∷◌, ◌++◌, ◌==◌,
  if◌then◌else◌, is_some, length,
}
use onvifxx.Base.Chars.{Text, codes}
use onvifxx.Base.Outcome.{
  Outcome, ok, fault, dangling, Ended, returned, thrown, ◌>>=◌, ◌>>◌, assert, deref,
}
use onvifxx.Exceptions.{Soap, soap_exception, what}
use onvifxx.Wsdd.Gsoap.{
  Code, soap_ok, soap_fault, soap_user_error, Header, WsdMatch, WsdProbe, Runtime,
}
use onvifxx.Wsdd.Matches.{Vector, Place, empty_vector, reserve, fill, serialize}
use onvifxx.Wsdd.Messages.{ProbeMatch, Probe, Scopes, arg_of}
use onvifxx.Wsdd.Service.Output.{Io, write_response}
use onvifxx.Wsdd.Uuid.{Random}
use onvifxx.Wsdd.Wsa
use onvifxx.Wsdd.Wsa.{State, request, add_relates_to, add_app_sequence}
use onvifxx.Wsdd.Proxy.{namespace_wsd}

-- The object that a service is bound to.
pub record Handler : Type 0 where
  pub hello : ProbeMatch → Ended (Unit {0})
  pub bye : ProbeMatch → Ended (Unit {0})
  pub probe : Probe → Ended (List ProbeMatch)

-- What `soap_mode` is given.
pub data ModeBit : Type 0 where
  io_udp xml_ignorens : ModeBit

-- What a service does that others see.
pub data Event : Type 0 where
  called_hello called_bye : ProbeMatch → Event
  called_probe : Probe → Event
  wrote : List Io → List (WsdMatch × ℕ) → Event
  closed_socket : Event
  sender_fault : Text → Event

pub record Service : Type 0 where
  pub wsa : State
  pub p : Option Handler
  pub matches : Vector
  pub send_timeout : ℕ
  pub recv_timeout : ℕ
  pub accept_timeout : ℕ
  pub mode : List ModeBit
  pub socket : Option ℕ
  pub events : List Event

abbrev pub timeout : ℕ
timeout = 5

-- What a call is given from outside: the source of ids, the clock, the growth of a full vector, the
-- output calls that fail, the mode, the code of a failed output, and what an exception reads.
pub record World : Type 0 where
  pub random : Random
  pub clock : ℕ
  pub grow : ℕ → ℕ
  pub fails : List Io → Io → Bool
  pub counts_length : Bool
  pub output_error : Code
  pub soap : Soap

abbrev pub Method : Type 0
Method = Service → Outcome (Ended Code × Service)

abbrev pub log : Service → List Event → Service
log s events = record s { events = s.events ++ events }

-- `RemoteDiscoveryService()`
unfoldable pub create : Runtime → State → Service
create rt wsa = record {
  wsa = Wsa.create rt wsa;
  p = none;
  matches = empty_vector;
  send_timeout = timeout;
  recv_timeout = timeout;
  accept_timeout = timeout;
  mode = [];
  socket = none;
  events = [];
}

-- `copy`: a new service, for the server state that the new one starts with
unfoldable pub copy : Runtime → State → Service → Service
copy rt wsa s = create rt wsa

-- `BaseService::bind`, for the result of the generated `bind`, which keeps the socket in the service
unfoldable pub base_bind : (ℕ → Option ℕ) → Handler → ℕ → Service → Option ℕ × Service
base_bind binds obj port s =
    let socket = binds (if port == 0 then 80 else port) in
    (socket, record s { p = some obj; socket = socket })

-- `bind`: a socket that is bound and has joined the multicast group, or `SOAP_INVALID_SOCKET`
unfoldable pub bind : (ℕ → Option ℕ) → (ℕ → Bool) → Handler → ℕ → Service → Option ℕ × Service
bind binds joins obj port s =
    let socket = binds (if port == 0 then 3702 else port) in
    let bound = record s { p = some obj; mode = io_udp ∷ xml_ignorens ∷ []; socket = socket } in
    elim socket [
      | none ↦ (none, bound)
      | some socket ↦ (if joins socket then some socket else none, bound)
    ]

-- The end of `Hello` and `Bye` once the handler was called.
pub answer : Ended (Unit {0}) → Ended Code
answer (returned u) = returned soap_user_error
answer (thrown e) = thrown e

-- `Hello`: the message may be null, and `has_response` says whether the response is not
pub hello : Option (WsdMatch × ℕ) → Bool → Method
unfolding answer
hello message has_response s = do
  assert (is_some message && has_response)
  (m, version) ← deref message
  let arg = arg_of m version
  ok (elim s.p [
    | none ↦ (returned soap_user_error, s)
    | some obj ↦ (answer (obj.hello arg), log s (called_hello arg ∷ []))
  ])

-- `Bye`: the version is a pointer, and 0 stands for a null one
pub bye : Option (WsdMatch × Option ℕ) → Bool → Method
unfolding answer
bye message has_response s = do
  assert (is_some message && has_response)
  (m, version) ← deref message
  let arg = arg_of m (elim version [ none ↦ 0 | some v ↦ v ])
  ok (elim s.p [
    | none ↦ (returned soap_user_error, s)
    | some obj ↦ (answer (obj.bye arg), log s (called_bye arg ∷ []))
  ])

unfoldable pub probe_arg : WsdProbe → Probe
probe_arg m = record {
  types = m.types;
  scopes = elim m.scopes [
    | none ↦ none
    | some s ↦ some (record { item = s.item; match_by = s.match_by })
  ];
}

module _ (rt : Runtime) (env : World) where
  -- The header of the response: results of the three calls are not looked at.
  pub response_header : State → Outcome State
  response_header w = do
    h ← deref w.header
    r ← request rt env.random [] (namespace_wsd ++ codes "/ProbeMatches") w
    r' ← add_relates_to rt h.message_id r.1
    add_app_sequence env.clock none r'.1

  -- The matches go to `matches_`, and the response is written twice.
  pub respond : List ProbeMatch → Service → Outcome (Ended Code × Service)
  respond items s = do
    let (v, places) = fill rt env.grow items (reserve (length items) s.matches) []
    body ← serialize v places
    let (done, calls) = write_response env.fails env.counts_length
    ok (
      returned (if done then soap_user_error else env.output_error),
      log (record s { matches = v }) (wrote calls body ∷ []),
    )

  pub probe : Option WsdProbe → Bool → Method
  unfolding respond probe_arg
  probe message has_response s = do
    assert (is_some message && has_response)
    m ← deref message
    let arg = probe_arg m
    let asked = (λ (obj : Handler). do
      w ← response_header s.wsa
      let called = log (record s { wsa = w }) (called_probe arg ∷ [])
      elim (obj.probe arg) [
        | thrown e ↦ ok (thrown e, called)
        | returned items ↦ respond items called
      ])
    elim s.p [ none ↦ ok (returned soap_user_error, s) | some obj ↦ asked obj ]

-- The handler of exceptions in `dispatch`.
unfoldable pub caught : Text → Service → Ended Code × Service
caught text s = (returned soap_fault, log s (sender_fault text ∷ []))

module _ (env : World) where
  unfoldable pub failed : Code → Service → Ended Code × Service
  unfolding caught
  failed rv s =
      caught (what (soap_exception (some env.soap)))
        (record s { wsa = record (s.wsa) { error = rv } })

  unfoldable pub after_base : Ended Code × Service → Ended Code × Service
  unfolding caught failed
  after_base (thrown e, s) = caught e s
  after_base (returned soap_ok, s) = (returned soap_ok, s)
  after_base (returned soap_user_error, s) = (returned soap_ok, log s (closed_socket ∷ []))
  after_base (returned rv, s) = failed rv s

  -- `dispatch`, over the generated one
  unfoldable pub dispatch : Method → Method
  unfolding after_base
  dispatch base s = do r ← base s; ok (after_base r)
