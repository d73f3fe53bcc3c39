-- ===== src/Wsdd/Service/Output.antt =====
-- The calls that write a response, in the order of `Probe` (wsdd/remotediscovery_service.cpp).
pub mod Order
use onvifxx.Base.{
  ℕ, zero, suc, ◌+◌, ◌≡◌, refl, sym, ap, ◌∙◌, Bool, true, false, not, ◌&&◌, Option, none, some,
  List, [], ◌∷◌, ◌++◌, if◌then◌else◌, arith, append_assoc, append-nil, ◌↔◌, ◌≢◌, Bool-cases, inl,
  inr, ◌⊎◌,
}

pub data Io : Type 0 where
  serialize_header serialize_body begin_count end_count response : Io
  envelope_begin put_header body_begin put_body body_end envelope_end end_send : Io

-- `a || b || …`: the calls in order up to the first that fails. `fails` sees what was called before.
pub chain : (List Io → Io → Bool) → List Io → List Io → Bool × List Io
chain fails [] log = (true, log)
chain fails (c ∷ cs) log =
    let rest = chain fails cs (log ++ c ∷ []) in
    if fails log c then (false, log ++ c ∷ []) else rest

-- The envelope, which is written once to be counted and once to be sent.
abbrev pub envelope : List Io
envelope = envelope_begin ∷ put_header ∷ body_begin ∷ put_body ∷ body_end ∷ envelope_end ∷ []

-- One round of the loop. The first two calls return nothing.
pub write_round : (List Io → Io → Bool) → Bool → List Io → Bool × List Io
unfolding chain
write_round fails counts log =
    let started = log ++ serialize_header ∷ serialize_body ∷ [] in
    let (begun, log1) = chain fails (begin_count ∷ []) started in
    let (counted, log2) = chain fails (if counts then envelope else []) log1 in
    let (sent, log3) = chain fails (end_count ∷ response ∷ (envelope ++ end_send ∷ [])) log2 in
    let after_count = if counted then (sent, log3) else (false, log2) in
    if begun then after_count else (false, log1)

-- The loop, of two rounds.
pub write_response : (List Io → Io → Bool) → Bool → Bool × List Io
unfolding write_round
write_response fails counts =
    let (first, log1) = write_round fails counts [] in
    let (second, log2) = write_round fails counts log1 in
    if first then (second, log2) else (false, log1)
