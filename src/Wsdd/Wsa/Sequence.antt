-- ===== src/Wsdd/Wsa/Sequence.antt =====
-- Numbering: what `Wsa::addAppSequence` writes, over any number of calls.
use onvifxx.Base.{
  ℕ, ◌+◌, ◌%◌, ◌^◌, ◌≡◌, refl, subst₂, true, Option, none, some, List, [], ◌∷◌, ◌++◌, arith, length,
}
use onvifxx.Base.Chars.{Text}
use onvifxx.Base.Outcome.{Outcome, ok, fault, null_pointer, ◌>>=◌}
use onvifxx.Wsdd.Gsoap.{Header}
use onvifxx.Wsdd.Wsa.{State, add_app_sequence}

-- A call: the time, and the id of the sequence.
abbrev pub Call : Type 0
Call = ℕ × Option Text

pub add_all : List Call → State → Outcome State
add_all [] s = ok s
add_all ((clock, id) ∷ cs) s = do s' ← add_app_sequence clock id s; add_all cs s'

-- The instance that a call at time `clock` finds.
abbrev pub instance_at : ℕ → State → ℕ
instance_at clock s = elim s.instance_rv [ none ↦ clock % 2 ^ 32 | some i ↦ i ]

-- The state after one call that finds the header `h`.
abbrev pub after : ℕ → Option Text → Header → State → State
after clock id h s = record s {
  instance_rv = some (instance_at clock s);
  message_rv = (s.message_rv + 1) % 2 ^ 32;
  sequence = record {
    instance_id = instance_at clock s;
    sequence_id = id;
    message_number = (s.message_rv + 1) % 2 ^ 32;
  };
  header = some (record h { app_sequence = true });
}

pub add_app_sequence-after :
    (clock : ℕ) (id : Option Text) (h : Header) (s : State)
    → s.header ≡ some h
    → add_app_sequence clock id s ≡ ok (after clock id h s)
unfolding add_app_sequence
add_app_sequence-after clock id h s e = ground arith

pub add_app_sequence-fault :
    (clock : ℕ) (id : Option Text) (s : State)
    → s.header ≡ none
    → add_app_sequence clock id s ≡ fault null_pointer
unfolding add_app_sequence
add_app_sequence-fault clock id s e = ground arith

-- What the last of the calls leaves, from the number `number` and the instance `instance'`.
pub record IsNumbered (instance' number : ℕ) (id : Option Text) (s : State) : Type 0 where
  pub sequence :
      s.sequence ≡ record { instance_id = instance'; sequence_id = id; message_number = number }
  pub header : Header
  pub sent : s.header ≡ some header
  pub points : header.app_sequence ≡ true

-- The instance of the first call of `cs`, or of one at time `clock` where `cs` is empty.
abbrev pub first_instance : List Call → ℕ → State → ℕ
first_instance [] clock s = instance_at clock s
first_instance ((time, id) ∷ cs) clock s = instance_at time s

first_instance-after :
    (cs : List Call) (clock time : ℕ) (id : Option Text) (h : Header) (s : State)
    → first_instance cs clock (after time id h s) ≡ instance_at time s
first_instance-after [] clock time id h s = refl
first_instance-after (c ∷ cs) clock time id h s = refl

-- From a header on, the last of any calls of `addAppSequence` succeeds and leaves the header pointing
-- to a sequence with the id it was given, the number of messages so far modulo 2^32, and the instance
-- of the first call: the one already set, or the time of that call.
pub add_all-IsNumbered :
    (cs : List Call) (clock : ℕ) (id : Option Text) (h : Header) (s : State)
    → s.header ≡ some h
    → (s' : State) × (add_all (cs ++ (clock, id) ∷ []) s ≡ ok s')
      × IsNumbered (first_instance cs clock s) ((s.message_rv + length cs + 1) % 2 ^ 32) id s'
unfolding add_all
add_all-IsNumbered [] clock id h s e =
    let same : (s.message_rv + 1) % 2 ^ 32 ≡ (s.message_rv + 0 + 1) % 2 ^ 32 = omega arith in
    (
      after clock id h s,
      rw (add_app_sequence-after clock id h s e),
      record {
        sequence = λ i. record {
          instance_id = instance_at clock s;
          sequence_id = id;
          message_number = same i;
        };
        header = record h { app_sequence = true };
        sent = refl;
        points = refl;
      },
    )
add_all-IsNumbered ((time, first) ∷ cs) clock id h s e =
    let (s', ran, numbered) = add_all-IsNumbered cs clock id _ (after time first h s) refl in
    (
      s',
      rw (add_app_sequence-after time first h s e) ran,
      subst₂ (λ i n. IsNumbered i n id s') (first_instance-after cs clock time first h s)
          (omega arith) numbered,
    )
