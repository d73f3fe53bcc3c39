-- ===== src/Tests/Exchange.antt =====
-- Runs of the proxy and of the service.
use onvifxx.Base.{
  ◌+◌, ◌*◌, ◌≡◌, refl, Bool, true, false, none, some, List, [], ◌∷◌, ◌++◌, map, All, ◌≤◌, ◌<◌, ap,
  arith,
}
use onvifxx.Base.Chars.{codes}
use onvifxx.Base.Int.{pos}
use onvifxx.Base.Outcome.{
  ok, fault, null_pointer, dangling, missing_return, Ended, returned, thrown, ◌>>=◌,
}
use onvifxx.Exceptions.{Soap}
use onvifxx.Wsdd.Gsoap.{Code, soap_ok, soap_user_error, other, Runtime, WsdProbe}
use onvifxx.Wsdd.Matches
use onvifxx.Wsdd.Matches.{Vector, empty_vector, serialize, reserve, fill}
use onvifxx.Wsdd.Matches.Growth.{response_grown}
use onvifxx.Wsdd.Matches.Lifetime.{IsPlain, first_response, filled, places_from}
use onvifxx.Wsdd.Messages.{ProbeMatch, Probe, request_of}
use onvifxx.Wsdd.Messages.RoundTrip.{seen}
use onvifxx.Wsdd.Proxy
use onvifxx.Wsdd.Proxy.{Proxy, Body, Message, hello_body, bye_body, bye_of, namespace_wsd, url}
use onvifxx.Wsdd.Proxy.Announce.Announcement.{announcement}
use onvifxx.Wsdd.Proxy.Announce.{hello_bye_total, probe_sent}
use onvifxx.Wsdd.Service
use onvifxx.Wsdd.Service.{
  Service, Handler, Method, called_hello, called_bye, called_probe, probe_arg, response_header,
  dispatch, log, closed_socket, bind, base_bind,
}
use onvifxx.Wsdd.Service.Run.{IsKept, serve_messages, serve_messages-IsKept}
use onvifxx.Wsdd.Service.Dispatch.{
  IsDispatched, dispatch-IsDispatched, hello_bye_delivered, deliver, handled, seen_bye,
}
use onvifxx.Wsdd.Service.Handlers.{
  IsAnswer, response_header-IsAnswer, responded, bodies, probe_answered,
}
use onvifxx.Wsdd.Service.Output.{Io, write_response}
use onvifxx.Wsdd.Service.Output.Order.{Ran, round, write_response-Ran}
use onvifxx.Wsdd.Wsa.{State}
use onvifxx.Tests.Data.{rt, clears, random, header, with_header, item}

abbrev soap : Soap
soap = record { errnum = pos 3; sprint_fault = λ size. codes "fault" }

-- A network on which sending succeeds.
abbrev network : Proxy.World
network = record { random = random; clock = 100; sends = λ m. soap_ok; soap = soap }

abbrev proxy : Proxy
proxy = record { wsa = with_header none; sent = [] }

-- A runtime without memory for a header.
abbrev exhausted : Runtime
exhausted = record rt { new_header = none }

hello_bye_total_example :
    ((s : State) × (Proxy.hello rt network item proxy
        ≡ ok (
          returned tt,
          record {
            wsa = s;
            sent =
                announcement rt network
                  (namespace_wsd ++ codes "/Hello")
                  (hello_body (request_of rt item) 1)
                  (with_header none)
                ∷ [];
          },
        )))
    × ((s : State) × (Proxy.bye rt network item proxy
          ≡ ok (
            returned tt,
            record {
              wsa = s;
              sent =
                  announcement rt network
                    (namespace_wsd ++ codes "/Bye")
                    (bye_body (bye_of rt item) none)
                    (with_header none)
                  ∷ [];
            },
          )))
hello_bye_total_example = hello_bye_total rt network proxy item

out_of_memory :
    ((s : State) × (Proxy.hello exhausted network item proxy ≡ fault null_pointer))
    × ((s : State) × (Proxy.bye exhausted network item proxy ≡ fault null_pointer))
out_of_memory = hello_bye_total exhausted network proxy item

abbrev question_arg : Probe
question_arg = record { types = some (codes "NetworkVideoTransmitter"); scopes = none }

never_returns : (s : State) × (Proxy.probe rt network question_arg proxy ≡ fault missing_return)
never_returns = probe_sent rt network question_arg proxy header refl

multicast : url ≡ codes "soap.udp://239.255.255.250:3702"
unfolding url
multicast = refl

-- A match with nothing that a pointer would lead to.
abbrev plain : ProbeMatch
plain = record item { endpoint = none }

abbrev handler : Handler
handler = record {
  hello = λ arg. returned tt;
  bye = λ arg. thrown (codes "no bye");
  probe = λ arg. returned (plain ∷ []);
}

abbrev never : List Io → Io → Bool
never log c = false

abbrev env : Service.World
env = record {
  random = random;
  clock = 100;
  grow = λ n. 2 * n + 1;
  fails = never;
  counts_length = false;
  output_error = other 3;
  soap = soap;
}

abbrev bound : Service
bound = record {
  wsa = with_header (some header);
  p = some handler;
  matches = empty_vector;
  send_timeout = 5;
  recv_timeout = 5;
  accept_timeout = 5;
  mode = [];
  socket = none;
  events = [];
}

hello_bye_delivered_example :
    (dispatch env (deliver rt env (hello_body (request_of rt item) 1)) bound
      ≡ ok (handled env (returned tt) (called_hello (seen item)) bound))
    × (dispatch env (deliver rt env (bye_body (bye_of rt item) none)) bound
        ≡ ok (handled env (thrown (codes "no bye")) (called_bye (seen_bye item)) bound))
hello_bye_delivered_example = hello_bye_delivered rt env clears item bound handler refl

abbrev done : Method
done s = ok (returned soap_user_error, s)

dispatch-IsDispatched_example :
    (r : Ended Code × Service) × (dispatch env done bound ≡ ok r)
    × IsDispatched env (returned soap_user_error, bound) r
dispatch-IsDispatched_example =
    dispatch-IsDispatched env done bound (returned soap_user_error, bound) refl

given_header :
    (s' : State) × (response_header rt env bound.wsa ≡ ok s') × IsAnswer rt env header bound.wsa s'
given_header = response_header-IsAnswer rt env bound.wsa header refl λ e. cc

abbrev message : WsdProbe
message = record { types = none; scopes = none }

abbrev answered : State
answered = (response_header-IsAnswer rt env bound.wsa header refl λ e. cc).0

first_probe :
    (All (IsPlain rt env.grow) (plain ∷ [])
      → (v : Vector) × (Service.probe rt env (some message) true bound
          ≡ ok (
              responded rt env
                (record bound { wsa = answered; events = called_probe (probe_arg message) ∷ [] })
                v
                (bodies rt env (plain ∷ [])))))
    × (¬ All (IsPlain rt env.grow) (plain ∷ [])
        → Service.probe rt env (some message) true bound ≡ fault dangling)
first_probe =
    probe_answered rt env message bound handler (plain ∷ []) answered refl refl
      (response_header-IsAnswer rt env bound.wsa header refl λ e. cc).1 refl

first_response_example :
    let (v, places) = filled rt env.grow (item ∷ []) in
    (v.items ≡ map (Matches.match_of rt) (item ∷ []))
    × (places ≡ places_from v.block 0 (item ∷ []))
    × (All (IsPlain rt env.grow) (item ∷ [])
        → serialize v places ≡ ok (map (λ item. (request_of rt item, item.version)) (item ∷ [])))
    × (¬ All (IsPlain rt env.grow) (item ∷ []) → serialize v places ≡ fault dangling)
first_response_example = first_response rt env.grow (item ∷ [])

write_response-Ran_example : Ran never (round true ++ round true) [] (write_response never true)
write_response-Ran_example = write_response-Ran {fails = never} true

-- A vector with one match and room for it, as a first response leaves it.
abbrev used : Vector
used = record { block = 1; capacity = 1; blocks = 2; items = Matches.match_of rt plain ∷ [] }

-- Two matches behind one: the vector is given room for two in all, and moves at the second.
response_grown_example :
    let room = reserve 2 used in
    let (v', places) = fill rt env.grow (plain ∷ plain ∷ []) room [] in
    (1 + 2 ≤ room.capacity
      → All (IsPlain rt env.grow) (plain ∷ plain ∷ [])
      → serialize v' places
        ≡ ok (map (λ item. (request_of rt item, item.version)) (plain ∷ plain ∷ [])))
    × (1 < room.capacity → room.capacity < 1 + 2 → serialize v' places ≡ fault dangling)
response_grown_example =
    response_grown rt env.grow (plain ∷ plain ∷ []) used (ground arith, ground arith)

-- A hello without a header.
abbrev arrived : List (Service.World × Message)
arrived =
    (
      env,
      record {
        body = hello_body (request_of rt item) 1;
        header = none;
        sequence = rt.default_sequence;
      },
    )
    ∷ []

served :
    serve_messages rt arrived bound
    ≡ ok (
        log
          (record bound { wsa = record (bound.wsa) { header = none } })
          (called_hello (seen item) ∷ closed_socket ∷ []))
unfolding serve_messages
served =
    ap (λ o. o >>= λ (r : Ended Code × Service). ok r.1)
      (hello_bye_delivered rt env clears item
        (record bound { wsa = record (bound.wsa) { header = none } }) handler refl).0

serve_messages-IsKept_example : IsKept bound (
    log
      (record bound { wsa = record (bound.wsa) { header = none } })
      (called_hello (seen item) ∷ closed_socket ∷ []))
serve_messages-IsKept_example =
    serve_messages-IsKept rt arrived bound
      (log (record bound { wsa = record (bound.wsa) { header = none } })
        (called_hello (seen item) ∷ closed_socket ∷ []))
      ((λ n. ground arith), tt) served
