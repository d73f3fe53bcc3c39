-- ===== src/Exchange/Device/Loop/Probes.antt =====
-- Probes among what arrives at the service of the device, and the turns of its loop.
use onvifxx.Base.{
  ◌≡◌, ◌≢◌, refl, sym, ap, subst, ◌∙◌, true, false, some, List, [], ◌∷◌, ◌++◌, if◌then◌else◌,
}
use onvifxx.Base.Chars.{Text}
use onvifxx.Base.Outcome.{Outcome, ok, fault, dangling, Ended, returned, ◌>>=◌}
use onvifxx.Device.Serving.{Heard, Served, served, failed, Turn}
use onvifxx.Exceptions.{soap_exception, what}
use onvifxx.Exchange.Device.{device, device_answers, Wants}
use onvifxx.Exchange.Device.Loop.{
  Arrival, no_socket, broken, message, heard_in, served_of, at_message,
}
use onvifxx.Exchange.Device.Loop.Notes.{silent_turn, broken_turn, one_turn}
use onvifxx.Exchange.Process.{Announcement}
use onvifxx.Exchange.Process.Numbers.{body_of}
use onvifxx.Exchange.Question.{probe_arg-probe_of, rand_uuid-named}
use onvifxx.Wsdd.Gsoap.{
  Code, soap_ok, soap_err, soap_eom, soap_fault, soap_user_error, other, Header, Runtime,
  ClearsPointers,
}
use onvifxx.Wsdd.Matches.{empty_vector}
use onvifxx.Wsdd.Messages.{Probe}
use onvifxx.Wsdd.Wsa.{State}
use onvifxx.Wsdd.Proxy.Announce.{question}
use onvifxx.Wsdd.Proxy
use onvifxx.Wsdd.Proxy.{Message, probe_body, probe_of}
use onvifxx.Wsdd.Service
use onvifxx.Wsdd.Service.{
  Service, World, probe, dispatch, after_base, caught, called_probe, wrote, closed_socket,
  sender_fault,
}
use onvifxx.Wsdd.Service.Dispatch.{deliver}
use onvifxx.Wsdd.Service.Handlers.{response_header-IsAnswer}
use onvifxx.Wsdd.Service.Output.{Io, write_response}

-- What a message says: an announcement, or a question.
pub data Saying : Type 0 where
  says : Announcement → Saying
  asks : Probe → Saying

module _ (rt : Runtime) where
  -- A probe comes with a message id.
  abbrev pub IsSaid : Saying → Message → Type 0
  IsSaid (says a) m = m.body ≡ body_of rt a
  IsSaid (asks arg) m =
      (m.body ≡ probe_body (probe_of rt arg))
      × (h : Header) × (m.header ≡ some h)
      × (h.message_id ≢ [])

  abbrev pub AreSaid : List Arrival → List Saying → Type 0
  AreSaid [] [] = Unit
  AreSaid (no_socket ∷ arrivals) said = AreSaid arrivals said
  AreSaid (broken ∷ arrivals) said = AreSaid arrivals said
  AreSaid (message env m ∷ arrivals) (x ∷ said) = IsSaid x m × AreSaid arrivals said
  AreSaid _ _ = ⊥

-- A probe as a proxy sends it, from a state with the header `h`.
pub question-IsSaid :
    (rt : Runtime) (client : Proxy.World) (arg : Probe) (h : Header) (st : State)
    → IsSaid rt (asks arg) (question rt client arg h st)
question-IsSaid rt client arg h st = (refl, _, refl, rand_uuid-named st.seed client.random)

-- What `serve` returns behind an answer that is written.
abbrev pub answered : World → Served
answered env =
    let (done, _) = write_response env.fails env.counts_length in
    elim (if done then soap_user_error else env.output_error) as (λ _. Served) [
      | soap_ok ↦ served
      | soap_user_error ↦ served
      | soap_err ↦ failed (what (soap_exception (some env.soap)))
      | soap_eom ↦ failed (what (soap_exception (some env.soap)))
      | soap_fault ↦ failed (what (soap_exception (some env.soap)))
      | other n ↦ failed (what (soap_exception (some env.soap)))
    ]

abbrev pub question_turn : World → Probe → Turn
question_turn env arg = record {
  stopped = false;
  accept_fails = false;
  heard = Heard.probe arg ∷ [];
  serves = answered env;
}

abbrev pub said_turn : World → Saying → Turn
said_turn env (says a) = one_turn a
said_turn env (asks arg) = question_turn env arg

abbrev pub said_turns : List Arrival → List Saying → List Turn
said_turns (no_socket ∷ arrivals) said = silent_turn ∷ said_turns arrivals said
said_turns (broken ∷ arrivals) said = broken_turn ∷ said_turns arrivals said
said_turns (message env m ∷ arrivals) (x ∷ said) = said_turn env x ∷ said_turns arrivals said
said_turns _ _ = []

-- Not a question for what the device has.
abbrev pub IsOther : (Text → List Text) → Saying → Type 0
IsOther split (says a) = Unit
IsOther split (asks arg) = ¬ Wants split arg

-- The service between two requests.
pub record IsReady (split : Text → List Text) (s : Service) : Type 0 where
  pub bound : s.p ≡ some (device split)
  pub fresh : s.matches ≡ empty_vector

-- What `dispatch` makes of an answer that came to a code, with the events of a question.
after-answered :
    (env : World) (code : Code) (arg : Probe) (calls : List Io) (s : Service)
    → s.events ≡ called_probe arg ∷ wrote calls [] ∷ []
    → (end : Code) × (s' : Service) × (after_base env (returned code, s) ≡ (returned end, s'))
      × (served_of env.soap end ≡ (elim code as (λ _. Served) [
        | soap_ok ↦ served
        | soap_user_error ↦ served
        | soap_err ↦ failed (what (soap_exception (some env.soap)))
        | soap_eom ↦ failed (what (soap_exception (some env.soap)))
        | soap_fault ↦ failed (what (soap_exception (some env.soap)))
        | other n ↦ failed (what (soap_exception (some env.soap)))
      ]))
      × (heard_in s'.events ≡ Heard.probe arg ∷ [])
      × (s'.p ≡ s.p)
      × (s'.matches ≡ s.matches)
unfolding after_base heard_in Service.failed caught
after-answered env soap_ok arg calls s e = (_, _, refl, refl, ap heard_in e, refl, refl)
after-answered env soap_user_error arg calls s e =
    (_, _, refl, refl, ap (λ l. heard_in (l ++ closed_socket ∷ [])) e, refl, refl)
after-answered env soap_err arg calls s e = (
  _,
  _,
  refl,
  refl,
  ap (λ l. heard_in (l ++ sender_fault (what (soap_exception (some env.soap))) ∷ [])) e,
  refl,
  refl,
)
after-answered env soap_eom arg calls s e = (
  _,
  _,
  refl,
  refl,
  ap (λ l. heard_in (l ++ sender_fault (what (soap_exception (some env.soap))) ∷ [])) e,
  refl,
  refl,
)
after-answered env soap_fault arg calls s e = (
  _,
  _,
  refl,
  refl,
  ap (λ l. heard_in (l ++ sender_fault (what (soap_exception (some env.soap))) ∷ [])) e,
  refl,
  refl,
)
after-answered env (other n) arg calls s e = (
  _,
  _,
  refl,
  refl,
  ap (λ l. heard_in (l ++ sender_fault (what (soap_exception (some env.soap))) ∷ [])) e,
  refl,
  refl,
)

-- A probe at the service of the device.
pub question_served :
    (split : Text → List Text) (rt : Runtime) (clears : ClearsPointers rt) (env : World)
    (arg : Probe) (m : Message) (s : Service)
    → IsReady split s
    → IsSaid rt (asks arg) m
    → let done = dispatch env (deliver rt env m.body) (at_message m s) in
      (Wants split arg → done ≡ fault dangling)
      × (¬ Wants split arg
          → (code : Code) × (s' : Service) × (done ≡ ok (returned code, s'))
            × (served_of env.soap code ≡ answered env)
            × (heard_in s'.events ≡ Heard.probe arg ∷ [])
            × IsReady split s')
unfolding dispatch
question_served split rt clears env arg m s ready (body, h, headed, named) =
    let s0 = at_message m s in
    let behind : Outcome (Ended Code × Service) → Outcome (Ended Code × Service) =
      (λ o. o >>= λ r. ok (after_base env r)) in
    let (w, answers, _) = response_header-IsAnswer rt env s0.wsa h headed named in
    let (has, lacks) =
      device_answers split rt env (probe_of rt arg) s0 w ready.bound ready.fresh answers in
    let same = probe_arg-probe_of rt clears arg in
    let at : dispatch env (deliver rt env m.body) s0
        ≡ behind (probe rt env (some (probe_of rt arg)) true s0) =
      ap (λ b. behind (deliver rt env b s0)) body in
    let (done, calls) = write_response env.fails env.counts_length in
    let code = if done then soap_user_error else env.output_error in
    let asked : Probe → Service = (λ arg. record s0 {
      wsa = w;
      matches = empty_vector;
      events = called_probe arg ∷ wrote calls [] ∷ [];
    }) in
    let (end, s', after, result, heard, bound, fresh) =
      after-answered env code arg calls (asked arg) refl in
    (
      λ wants. at ∙ ap behind (has (subst (Wants split) (sym same) wants)),
      λ unlike. (
        end,
        s',
        at
            ∙ ap behind (lacks λ wants. unlike (subst (Wants split) same wants))
            ∙ ap (λ arg. behind (ok (returned code, asked arg))) same
            ∙ ap ok after,
        result,
        heard,
        record { bound = bound ∙ ready.bound; fresh = fresh },
      ),
    )
