-- ===== src/Tests/Nodes.antt =====
-- A process with a proxy and a service.
use onvifxx.Base.{
  false, ◌*◌, ℕ, ◌+◌, ◌%◌, ◌^◌, ◌≡◌, refl, Option, none, some, List, [], ◌∷◌, ◌++◌, ◌<◌, length,
  get_elem?,
}
use onvifxx.Base.Chars.{codes}
use onvifxx.Base.Int.{pos}
use onvifxx.Base.Outcome.{ok, Ended, returned, thrown}
use onvifxx.Exceptions.{Soap}
use onvifxx.Exchange.Node.{Act, calls, asks, answers, Node, act_all}
use onvifxx.Exchange.Node.Numbers.{act_all_lem}
use onvifxx.Exchange.Node.Stamps.{stamp}
use onvifxx.Device.Serving
use onvifxx.Device.Serving.{Action, Turn, run_service}
use onvifxx.Exchange.Delivery.{announced, heard_by}
use onvifxx.Exchange.Device.Announced.{first, calls_of, said_in, device_heard}
use onvifxx.Exchange.Process.{hello, bye, Process, announce, run, with_statics}
use onvifxx.Exchange.Receiving.{receive_all}
use onvifxx.Wsdd.Matches.{empty_vector}
use onvifxx.Wsdd.Messages.RoundTrip.{seen}
use onvifxx.Wsdd.Proxy.{Proxy, Message}
use onvifxx.Wsdd.Service.{Service, Handler}
use onvifxx.Wsdd.Gsoap.{soap_ok, other, AppSequence, Header}
use onvifxx.Wsdd.Proxy
use onvifxx.Wsdd.Service
use onvifxx.Wsdd.Uuid.{first_seed}
use onvifxx.Tests.Data.{rt, clears, random, header, with_header, item}

abbrev soap : Soap
soap = record { errnum = pos 3; sprint_fault = λ size. codes "fault" }

abbrev network : Proxy.World
network = record { random = random; clock = 100; sends = λ m. soap_ok; soap = soap }

abbrev server : Service.World
server = record {
  random = random;
  clock = 200;
  grow = λ n. 2 * n + 1;
  fails = λ done c. false;
  counts_length = false;
  output_error = other 3;
  soap = soap;
}

-- A network on which sending fails.
abbrev broken : Proxy.World
broken = record network { sends = λ m. other 3 }

-- The device says hello, asks in vain, answers a probe and says bye.
abbrev acts : List Act
acts =
    calls (record { who = 0; env = network; what = hello item })
    ∷ asks 0 broken (record { types = none; scopes = none })
    ∷ answers 1 server header
    ∷ calls (record { who = 0; env = network; what = bye item })
    ∷ []

abbrev node : Node
node = record {
  statics = record { instance_rv = none; sequence_rv = []; message_rv = 0; seed = first_seed };
  owners = λ i. with_header none;
  stamps = [];
  probes = [];
}

act_all_lem_example :
    (n' : Node) × (new : List AppSequence) × (act_all rt acts node ≡ ok n')
    × (n'.stamps ≡ [] ++ new)
    × (length new ≡ 3)
    × ((i : ℕ) → i < 3 → get_elem? new i ≡ some (stamp 100 ((0 + (i + 1)) % 2 ^ 32)))
act_all_lem_example = act_all_lem rt header refl acts node (tt, (λ m. refl, (λ e. cc, (tt, tt))))

-- A listener.
abbrev listener : Handler
listener = record {
  hello = λ arg. returned tt;
  bye = λ arg. thrown (codes "no bye");
  probe = λ arg. returned [];
}

abbrev bound : Service
bound = record {
  wsa = with_header (some header);
  p = some listener;
  matches = empty_vector;
  send_timeout = 5;
  recv_timeout = 5;
  accept_timeout = 5;
  mode = [];
  socket = none;
  events = [];
}

-- A process that has sent nothing.
abbrev fresh_process : Process
fresh_process = record { statics = node.statics; proxies = node.owners; sent = [] }

device_heard_example :
    (ended : Ended (Unit {0})) × (p' : Proxy) × (announce rt
        (first network network)
        (record { wsa = with_header none; sent = [] })
      ≡ ok (ended, p'))
    × ((bye_ends : Ended (Unit {0})) (ts : List Turn) (acts : List Action)
        → run_service ended bye_ends ts ≡ some acts
        → said_in acts ≡ announced (calls_of network network ended))
    × (w' : Process) × (ms : List Message) × (run rt (calls_of network network ended) fresh_process
        ≡ ok w')
    × (w'.sent ≡ [] ++ ms)
    × ((h : Option Header) × (receive_all rt server ms bound
          ≡ ok (heard_by listener (announced (calls_of network network ended)) h bound)))
    × (seen Serving.announced ≡ Serving.announced)
unfolding with_statics
device_heard_example =
    device_heard network network rt clears header refl server listener fresh_process bound refl
