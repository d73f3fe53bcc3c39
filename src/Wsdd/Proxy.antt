-- ===== src/Wsdd/Proxy.antt =====
-- `RemoteDiscoveryProxy` of wsdd/remotediscovery_proxy.cpp: the client that announces and looks for
-- targets.
pub mod Announce
use onvifxx.Base.{
  ℕ, suc, ◌+◌, ◌*◌, ◌%◌, Bool, true, false, Option, none, some, List, [], ◌∷◌, ◌++◌, if◌then◌else◌,
  ◌/◌, zero, ltb,
}
use onvifxx.Base.Chars.{Text, codes, print_nat}
use onvifxx.Base.Outcome.{Outcome, ok, fault, missing_return, Ended, returned, thrown, ◌>>=◌, ◌>>◌}
use onvifxx.Exceptions.{Soap, soap_exception, what}
use onvifxx.Wsdd.Gsoap.{Code, is_ok, AppSequence, Header, WsdMatch, WsdProbe, WsdScopes, Runtime}
use onvifxx.Wsdd.Messages.{ProbeMatch, Probe, Scopes, request_of}
use onvifxx.Wsdd.Uuid.{Random}
use onvifxx.Wsdd.Wsa.{State, request, add_app_sequence}

abbrev pub to_ts_url : Text
to_ts_url = codes "urn:schemas-xmlsoap-org:ws:2005:04:discovery"

-- `SOAP_NAMESPACE_OF_wsd`, from wsdd/typemap.dat
abbrev pub namespace_wsd : Text
namespace_wsd = codes "http://schemas.xmlsoap.org/ws/2005/04/discovery"

-- `send_timeout` and `recv_timeout`, in seconds
abbrev pub send_timeout : ℕ
send_timeout = 5

abbrev pub recv_timeout : ℕ
recv_timeout = 5

abbrev pub app_max_delay : ℕ
app_max_delay = 500

pub data Body : Type 0 where
  hello_body : WsdMatch → ℕ → Body
  bye_body : WsdMatch → Option ℕ → Body
  probe_body : WsdProbe → Body

-- A message as it leaves: the header and the sequence are those of the moment.
pub record Message : Type 0 where
  pub body : Body
  pub header : Option Header
  pub sequence : AppSequence

pub record Proxy : Type 0 where
  pub wsa : State
  pub sent : List Message

-- What a call is given from outside: the source of ids, the clock, the result of sending a message,
-- and the `struct soap` that an exception reads.
pub record World : Type 0 where
  pub random : Random
  pub clock : ℕ
  pub sends : Message → Code
  pub soap : Soap

-- `toString`
pub to_string : Option Text → Text
to_string none = []
to_string (some s) = s

-- The microseconds that `delay` sleeps, for a value of `soap_random`.
pub delay : ℕ → ℕ
delay random = 1000 * (random % app_max_delay)

-- `checkHeader`, for the result of `soap_sender_fault`
pub check_header : World → (Text → Code) → Text → State → Ended (Unit {0})
check_header env sender_fault message s = elim s.header [
  | some h ↦ returned tt
  | none ↦
      if is_ok (sender_fault message)
      then returned tt
      else thrown (what (soap_exception (some env.soap)))
]

-- The generated `Hello`, `Bye` and `Probe`: the message goes out, and an error is thrown.
pub post : World → Body → Proxy → Ended (Unit {0}) × Proxy
post env body p =
    let m : Message = record { body = body; header = p.wsa.header; sequence = p.wsa.sequence } in
    let sent = record p { sent = p.sent ++ m ∷ [] } in
    if is_ok (env.sends m)
    then (returned tt, sent)
    else (thrown (what (soap_exception (some env.soap))), sent)

-- The function returns a vector of matches, and has no `return`.
pub finish_probe : Ended (Unit {0}) × Proxy → Outcome (Ended (Unit {0}) × Proxy)
finish_probe (returned u, p) = fault missing_return
finish_probe (thrown e, p) = ok (thrown e, p)

module _ (rt : Runtime) where
  -- Types, scopes and addresses are left out, and the version stays at its default.
  unfoldable pub bye_of : ProbeMatch → WsdMatch
  bye_of arg = record (request_of rt arg) { types = none; scopes = none; xaddrs = none }

  unfoldable pub probe_of : Probe → WsdProbe
  probe_of arg = record (rt.default_probe) {
    types = arg.types;
    scopes = elim arg.scopes [
      | none ↦ rt.default_probe.scopes
      | some s ↦ some (record (rt.default_scopes) { item = s.item; match_by = s.match_by })
    ];
  }

module _ (rt : Runtime) (env : World) where
  -- The header of `hello` and `bye`: the result of `request` is not looked at.
  pub announce : Text → State → Outcome State
  announce action s = do
    r ← request rt env.random to_ts_url action s
    add_app_sequence env.clock none r.1

  pub hello : ProbeMatch → Proxy → Outcome (Ended (Unit {0}) × Proxy)
  unfolding announce post
  hello arg p = do
    s ← announce (namespace_wsd ++ codes "/Hello") p.wsa
    ok (post env (hello_body (request_of rt arg) arg.version) (record p { wsa = s }))

  pub bye : ProbeMatch → Proxy → Outcome (Ended (Unit {0}) × Proxy)
  unfolding announce post bye_of
  bye arg p = do
    s ← announce (namespace_wsd ++ codes "/Bye") p.wsa
    ok (post env (bye_body (bye_of rt arg) rt.default_bye_version) (record p { wsa = s }))

  pub probe : Probe → Proxy → Outcome (Ended (Unit {0}) × Proxy)
  unfolding post probe_of finish_probe
  probe arg p = do
    r ← request rt env.random to_ts_url (namespace_wsd ++ codes "/Probe") p.wsa
    finish_probe (post env (probe_body (probe_of rt arg)) (record p { wsa = r.1 }))

abbrev pub multicast_ip : Text
multicast_ip = codes "239.255.255.250"

abbrev pub multicast_port : ℕ
multicast_port = 3702

-- `url()`; a port has five digits at most
unfoldable pub url : Text
unfolding print_nat
url = codes "soap.udp://" ++ multicast_ip ++ codes ":" ++ print_nat 5 multicast_port
