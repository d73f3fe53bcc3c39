-- ===== src/Wsdd/Service/Output/Order.antt =====
-- The order of the output calls, and where a failure stops them.
use onvifxx.Base.{
  ◌≡◌, refl, sym, ap, subst, ◌∙◌, Bool, true, false, List, [], ◌∷◌, ◌++◌, if◌then◌else◌,
  append_assoc, append-nil, Bool-cases, inl, inr,
}
use onvifxx.Wsdd.Service.Output.{
  Io, serialize_header, serialize_body, begin_count, end_count, response, end_send, chain, envelope,
  write_round, write_response,
}

-- The calls of one round, if none fails.
abbrev pub round : Bool → List Io
round counts =
    serialize_header
    ∷ serialize_body
    ∷ begin_count
    ∷ ((if counts then envelope else []) ++ end_count ∷ response ∷ (envelope ++ end_send ∷ []))

-- `calls`, begun after `log`, came to their end, or to the call `bad` which failed.
pub data Ran (fails : List Io → Io → Bool) (calls log : List Io) : Bool × List Io → Type 0 where
  whole : {l : List Io} → l ≡ log ++ calls → Ran fails calls log (true, l)
  stopped :
      {l : List Io} (before : List Io) (bad : Io) (after : List Io)
      → calls ≡ before ++ bad ∷ after
      → fails (log ++ before) bad ≡ true
      → l ≡ log ++ before ++ bad ∷ []
      → Ran fails calls log (false, l)

module _ {fails : List Io → Io → Bool} where
  chain-Ran : (cs log : List Io) → Ran fails cs log (chain fails cs log)
  unfolding chain
  chain-Ran [] log = whole (sym (append-nil log))
  chain-Ran (c ∷ cs) log = elim (Bool-cases (fails log c)) [
    | inl bad ↦ rw (bad, chain) (stopped [] c cs refl (rw append-nil bad) (rw append-nil))
    | inr good ↦ rw (good, chain) (later (chain-Ran cs (log ++ c ∷ [])))
  ]
    where
      later : {r : Bool × List Io} → Ran fails cs (log ++ c ∷ []) r → Ran fails (c ∷ cs) log r
      later (whole e) = whole (e ∙ append_assoc log (c ∷ []) cs)
      later (stopped before bad after splits fail e) =
          stopped (c ∷ before) bad after (ap (◌∷◌ c) splits)
            (subst (λ l. fails l bad ≡ true) (append_assoc log (c ∷ []) before) fail)
            (e ∙ simp append_assoc)

  -- Calls that were made before count as the first.
  shift-Ran :
      (made cs log : List Io) {r : Bool × List Io}
      → Ran fails cs (log ++ made) r
      → Ran fails (made ++ cs) log r
  shift-Ran made cs log (whole e) = whole (e ∙ append_assoc log made cs)
  shift-Ran made cs log (stopped before bad after splits fail e) =
      stopped (made ++ before) bad after (ap (◌++◌ made) splits ∙ sym (append_assoc made before _))
        (subst (λ l. fails l bad ≡ true) (append_assoc log made before) fail)
        (e ∙ simp append_assoc)

  -- One sequence of calls, and another if the first came to its end.
  then-Ran :
      (cs ds log : List Io) {q : Bool × List Io} (r : Bool × List Io)
      → Ran fails cs log q
      → Ran fails ds q.1 r
      → Ran fails (cs ++ ds) log (if q.0 then r else (false, q.1))
  then-Ran cs ds log r (whole e) second =
      shift-Ran cs ds log (subst (λ l. Ran fails ds l r) e second)
  then-Ran cs ds log r (stopped before bad after splits fail e) second =
      stopped before bad (after ++ ds) (ap (λ l. l ++ ds) splits ∙ append_assoc before _ ds) fail e

  module _ (counts : Bool) where
    write_round-Ran : (log : List Io) → Ran fails (round counts) log (write_round fails counts log)
    unfolding write_round
    write_round-Ran log =
        let started = log ++ serialize_header ∷ serialize_body ∷ [] in
        let first = chain fails (begin_count ∷ []) started in
        let counted = chain fails (if counts then envelope else []) first.1 in
        let sends = end_count ∷ response ∷ (envelope ++ end_send ∷ []) in
        shift-Ran (serialize_header ∷ serialize_body ∷ []) _ log (
          then-Ran (begin_count ∷ []) _ started _ (chain-Ran (begin_count ∷ []) started) (
            then-Ran (if counts then envelope else []) sends first.1 _
              (chain-Ran (if counts then envelope else []) first.1) (chain-Ran sends counted.1)))

    -- Writing a response makes the calls of two rounds in order. It reports success only after all of
    -- them; else it stops right behind a call that failed, and reports the failure.
    pub write_response-Ran :
        Ran fails (round counts ++ round counts) [] (write_response fails counts)
    unfolding write_response
    write_response-Ran =
        let first = write_round fails counts [] in
        then-Ran (round counts) (round counts) [] _ (write_round-Ran []) (write_round-Ran first.1)
