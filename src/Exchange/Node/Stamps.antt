-- ===== src/Exchange/Node/Stamps.antt =====
-- The sequences that a process (wsdd/wsa.cpp) owes to its acts.
use onvifxx.Base.{
  ℕ, ◌+◌, ◌%◌, ◌^◌, ◌≡◌, ◌≢◌, refl, ap, ◌∙◌, Option, none, some, List, [], ◌∷◌, zero, suc, ◌<◌,
  length, get_elem?, arith, false,
}
use onvifxx.Exchange.Node.{Act, calls, asks, answers}
use onvifxx.Wsdd.Gsoap.{AppSequence, is_ok}
use onvifxx.Wsdd.Proxy.{Message}

abbrev pub stamp : ℕ → ℕ → AppSequence
stamp instance' number = record {
  instance_id = instance';
  sequence_id = none;
  message_number = number;
}

-- How many acts are an announcement or an answer.
abbrev pub counted : List Act → ℕ
counted [] = 0
counted (asks who env arg ∷ acts) = counted acts
counted (calls c ∷ acts) = suc (counted acts)
counted (answers who env asked ∷ acts) = suc (counted acts)

-- One stamp for each of them, under one instance, with numbers that count on from `number`.
abbrev pub stamps_from : ℕ → ℕ → List Act → List AppSequence
stamps_from instance' number [] = []
stamps_from instance' number (asks who env arg ∷ acts) = stamps_from instance' number acts
stamps_from instance' number (calls c ∷ acts) =
    let next = (number + 1) % 2 ^ 32 in stamp instance' next ∷ stamps_from instance' next acts
stamps_from instance' number (answers who env asked ∷ acts) =
    let next = (number + 1) % 2 ^ 32 in stamp instance' next ∷ stamps_from instance' next acts

-- The instance that is set, or the time of the first of them.
abbrev pub instance_of : List Act → Option ℕ → ℕ
instance_of [] rv = elim rv [ none ↦ 0 | some i ↦ i ]
instance_of (asks who env arg ∷ acts) rv = instance_of acts rv
instance_of (calls c ∷ acts) rv = elim rv [ none ↦ c.env.clock % 2 ^ 32 | some i ↦ i ]
instance_of (answers who env asked ∷ acts) rv = elim rv [ none ↦ env.clock % 2 ^ 32 | some i ↦ i ]

-- A probe that is answered has an id, and one that is sent is not got through, so that the proxy throws.
abbrev pub IsNamed : Act → Type 0
IsNamed (calls c) = Unit
IsNamed (asks who env arg) = (m : Message) → is_ok (env.sends m) ≡ false
IsNamed (answers who env asked) = asked.message_id ≢ []

pub instance_of-some : (acts : List Act) (i : ℕ) → instance_of acts (some i) ≡ i
instance_of-some [] i = refl
instance_of-some (asks who env arg ∷ acts) i = instance_of-some acts i
instance_of-some (calls c ∷ acts) i = refl
instance_of-some (answers who env asked ∷ acts) i = refl

pub length-stamps_from :
    (inst number : ℕ) (acts : List Act) → length (stamps_from inst number acts) ≡ counted acts
length-stamps_from inst number [] = refl
length-stamps_from inst number (asks who env arg ∷ acts) = length-stamps_from inst number acts
length-stamps_from inst number (calls c ∷ acts) =
    ap suc (length-stamps_from inst ((number + 1) % 2 ^ 32) acts)
length-stamps_from inst number (answers who env asked ∷ acts) =
    ap suc (length-stamps_from inst ((number + 1) % 2 ^ 32) acts)

pub get_elem-stamps_from :
    (inst number : ℕ) (acts : List Act) (i : ℕ)
    → i < counted acts
    → get_elem? (stamps_from inst number acts) i ≡ some (stamp inst ((number + (i + 1)) % 2 ^ 32))
get_elem-stamps_from inst number [] i less = absurd (omega arith)
get_elem-stamps_from inst number (asks who env arg ∷ acts) i less =
    get_elem-stamps_from inst number acts i less
get_elem-stamps_from inst number (calls c ∷ acts) zero less = refl
get_elem-stamps_from inst number (calls c ∷ acts) (suc i) less =
    get_elem-stamps_from inst ((number + 1) % 2 ^ 32) acts i (omega arith)
    ∙ ap (λ k. some (stamp inst k)) (omega arith)
get_elem-stamps_from inst number (answers who env asked ∷ acts) zero less = refl
get_elem-stamps_from inst number (answers who env asked ∷ acts) (suc i) less =
    get_elem-stamps_from inst ((number + 1) % 2 ^ 32) acts i (omega arith)
    ∙ ap (λ k. some (stamp inst k)) (omega arith)
