-- ===== src/Wsdd/Wsa/Requests.antt =====
-- The header that `Wsa::request` leaves, and how it fails.
use onvifxx.Base.{◌≡◌, refl, not, Option, none, some, arith, if◌then◌else◌}
use onvifxx.Base.Chars.{Text, is_empty}
use onvifxx.Base.Outcome.{ok}
use onvifxx.Wsdd.Gsoap.{Code, soap_ok, soap_eom, is_ok, Header, Runtime, ReportsErrors}
use onvifxx.Wsdd.Uuid.{Random, rand_uuid}
use onvifxx.Wsdd.Wsa.{
  State, anonymous_uri, alloc_header, check, filled, request, report_for, missing_header,
}

module _ (rt : Runtime) where
  -- The header that a request writes to: the one that is there, or a new one.
  abbrev pub available : State → Option Header
  available s = elim s.header [ none ↦ rt.new_header | some h ↦ some h ]

  alloc_header-available :
      (s : State) (h : Header)
      → available s ≡ some h
      → alloc_header rt s ≡ (soap_ok, record s { header = some h })
  unfolding alloc_header
  alloc_header-available s h e = ground arith

  alloc_header_exhausted :
      (s : State)
      → available s ≡ none
      → alloc_header rt s ≡ (soap_eom, record s { error = soap_eom })
  unfolding alloc_header
  alloc_header_exhausted s e = ground arith

  -- `check` of a header that is there.
  check_keeps :
      (s : State) (h : Header)
      → s.header ≡ some h
      → ((check rt s).1.header ≡ s.header)
        × ((check rt s).1.seed ≡ s.seed)
        × ((check rt s).1.sequence ≡ s.sequence)
        × ((check rt s).1.message_rv ≡ s.message_rv)
        × ((check rt s).1.instance_rv ≡ s.instance_rv)
  unfolding check report_for
  check_keeps s h e = ground arith

  check-is_ok :
      (s : State) (h : Header)
      → ReportsErrors rt
      → s.header ≡ some h
      → is_ok (check rt s).0 ≡ not (is_empty h.action)
  unfolding check report_for
  check-is_ok s h errors e = ground (arith, errors missing_header)

  -- The result of `request` where `h` is available.
  pub record IsRequested (env : Random) (to action : Text) (s : State) (h : Header)
      (r : Code × State) : Type 0 where
    pub header :
        r.1.header
        ≡ some (record {
          message_id = (rand_uuid s.seed env).0;
          relates_to = none;
          from = none;
          reply_to = none;
          fault_to = none;
          to = if is_empty to then anonymous_uri else to;
          action = action;
          app_sequence = h.app_sequence;
        })
    pub seed : r.1.seed ≡ (rand_uuid s.seed env).1
    pub sequence : r.1.sequence ≡ s.sequence
    pub number : r.1.message_rv ≡ s.message_rv
    pub instance' : r.1.instance_rv ≡ s.instance_rv

  module _ (env : Random) (to action : Text) (s : State) where
    -- Where a header is available, `request` returns. It fills the header with a new id, the
    -- destination (the anonymous address for an empty one) and the action, and nulls the four optional
    -- fields; the pointer to the sequence stays as it was, and so do the sequence and the counters.
    -- Where a reported fault is an error, it reports success exactly if the action is not empty.
    pub request-IsRequested :
        (h : Header)
        → available s ≡ some h
        → (r : Code × State) × (request rt env to action s ≡ ok r)
          × IsRequested env to action s h r
          × (ReportsErrors rt → is_ok r.0 ≡ not (is_empty action))
    unfolding request filled
    request-IsRequested h e =
        let (id, seed) = rand_uuid s.seed env in
        let s' = record s { header = some (filled id to action h); seed = seed } in
        let (header, seed, sequence, number, instance') =
          check_keeps s' (filled id to action h) refl in
        (
          check rt s',
          rw (alloc_header-available s h e, request),
          record {
            header = header;
            seed = seed;
            sequence = sequence;
            number = number;
            instance' = instance';
          },
          λ errors. check-is_ok s' (filled id to action h) errors refl,
        )

    -- With no header and no memory for one, `request` returns the error and changes nothing else.
    pub request_exhausted :
        available s ≡ none
        → request rt env to action s ≡ ok (soap_eom, record s { error = soap_eom })
    unfolding request
    request_exhausted e = rw (alloc_header_exhausted s e, request)
