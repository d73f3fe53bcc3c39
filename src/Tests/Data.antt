-- ===== src/Tests/Data.antt =====
-- The data that the tests of wsdd/ share.
use onvifxx.Base.{refl, false, Option, none, some, []}
use onvifxx.Base.Chars.{codes}
use onvifxx.Wsdd.Gsoap.{soap_ok, other, Header, Runtime, ClearsPointers}
use onvifxx.Wsdd.Messages.{ProbeMatch}
use onvifxx.Wsdd.Uuid.{Random, first_seed}
use onvifxx.Wsdd.Wsa.{State}

abbrev pub header : Header
header = record {
  message_id = codes "uuid:1";
  relates_to = none;
  from = none;
  reply_to = none;
  fault_to = none;
  to = [];
  action = [];
  app_sequence = false;
}

-- A runtime with memory for a header.
abbrev pub rt : Runtime
rt = record {
  default_item = record { item = [] };
  default_service_name = record { item = []; port_name = none };
  default_endpoint = record { address = none; port_type = none; service_name = none };
  default_scopes = record { item = []; match_by = none };
  default_match = record { endpoint = none; types = none; scopes = none; xaddrs = none };
  default_probe = record { types = none; scopes = none };
  default_bye_version = none;
  default_sequence = record { instance_id = 0; sequence_id = none; message_number = 0 };
  new_header = some header;
  reported = λ r. other 2;
}

abbrev pub clears : ClearsPointers rt
clears = record {
  endpoint_address = refl;
  endpoint_port_type = refl;
  endpoint_service_name = refl;
  match_endpoint = refl;
  match_scopes = refl;
  bye_version = refl;
  probe_scopes = refl;
}

abbrev pub random : Random
random = record { clock = 1000; buffer = 7; third = 3; fourth = 4 }

abbrev pub with_header : Option Header → State
with_header h = record {
  header = h;
  action = none;
  error = soap_ok;
  report = none;
  sequence = rt.default_sequence;
  instance_rv = none;
  sequence_rv = [];
  message_rv = 0;
  seed = first_seed;
}

-- A match with a port type at its endpoint.
abbrev pub item : ProbeMatch
item = record {
  endpoint = some (record {
    address = some (codes "urn:uuid:1");
    port_type = some (codes "tns:Port");
    service_name = none;
  });
  types = some (codes "NetworkVideoTransmitter");
  scopes = none;
  xaddrs = some (codes "http://127.0.0.1/onvif/services");
  version = 1;
}
