-- ===== src/Exchange/Device.antt =====
-- The device of examples/ws-discovery behind its service.
pub mod Logged
pub mod Announced
pub mod Loop
use onvifxx.Base.{
  ℕ, ◌≡◌, refl, sym, ap, subst, ◌∙◌, Bool, true, false, Option, none, some, List, [], ◌∷◌, ◌++◌,
  if◌then◌else◌, All, Bool-cases, ◌⊎◌, inl, inr,
}
use onvifxx.Base.Chars.{Text}
use onvifxx.Base.Outcome.{Outcome, ok, fault, dangling, returned}
use onvifxx.Device.Matching
use onvifxx.Device.Matching.{back}
use onvifxx.Device.Matching.Answer.{WantsTypes, WantsScopes, probe_iff}
use onvifxx.Device.Serving.{announced}
use onvifxx.Wsdd.Gsoap.{Runtime, WsdProbe}
use onvifxx.Wsdd.Matches.{empty_vector}
use onvifxx.Wsdd.Matches.Lifetime.{IsPlain, filled-nil}
use onvifxx.Wsdd.Messages.{Probe, ProbeMatch}
use onvifxx.Wsdd.Service.{Service, Handler, World, called_probe, probe_arg, response_header, probe}
use onvifxx.Wsdd.Service.Handlers.{responded, bodies, probe-filled}
use onvifxx.Wsdd.Wsa.{State}

module _ (split : Text → List Text) where
  last_announced : back (announced ∷ []) ≡ some announced
  unfolding back
  last_announced = refl

  -- What the probe asks for is what the device has.
  abbrev pub Wants : Probe → Type 0
  Wants arg =
      WantsTypes split arg.types announced.types × WantsScopes split arg.scopes announced.scopes

  -- `Wsdd::probe` once `runService` has filled `probeMatches_`: it always returns.
  pub device_probe :
      (arg : Probe)
      → (items : List ProbeMatch) × (Matching.probe split arg (announced ∷ []) ≡ ok items)
  device_probe arg = (_, (probe_iff split arg (announced ∷ []) announced last_announced).1)

  -- The object that the service is bound to. `hello` and `bye` write to the log and return.
  pub device : Handler
  unfolding device_probe
  device = record {
    hello = λ arg. returned tt;
    bye = λ arg. returned tt;
    probe = λ arg. returned (device_probe arg).0;
  }

  device_probe-cases :
      (arg : Probe)
      → (Wants arg → device.probe arg ≡ returned (announced ∷ []))
        × (¬ Wants arg → device.probe arg ≡ returned [])
  unfolding device
  device_probe-cases arg =
      let (b, _, iff) = probe_iff split arg (announced ∷ []) announced last_announced in
      (
        λ wants. ap (λ b. returned (if b then announced ∷ [] else [])) (iff.1 wants),
        λ other. elim (Bool-cases b) [
          | inl yes_ ↦ absurd (other (iff.0 yes_))
          | inr no_ ↦ ap (λ b. returned (if b then announced ∷ [] else [])) no_
        ],
      )

  pub wants? : (arg : Probe) → Wants arg ⊎ (¬ Wants arg)
  wants? arg =
      let (b, _, iff) = probe_iff split arg (announced ∷ []) announced last_announced in
      elim (Bool-cases b) [
        | inl yes_ ↦ inl (iff.0 yes_)
        | inr no_ ↦ inr λ wants. (let at : true ≡ false = sym (iff.1 wants) ∙ no_ in cc)
      ]

  -- It has scopes and an endpoint.
  not-IsPlain : (rt : Runtime) (grow : ℕ → ℕ) → ¬ IsPlain rt grow announced
  unfolding announced
  not-IsPlain rt grow (scopes, _) = cc

  -- The first probe that reaches the service of the example device, with a header that is answered. If
  -- it asks for what the device has, the response is written from memory that is no longer alive; if
  -- not, a response without matches is written, the device having been asked once, and the vector of
  -- the service is as it was.
  pub device_answers :
      (rt : Runtime) (env : World) (m : WsdProbe) (s : Service) (w : State)
      → s.p ≡ some device
      → s.matches ≡ empty_vector
      → response_header rt env s.wsa ≡ ok w
      → (Wants (probe_arg m) → probe rt env (some m) true s ≡ fault dangling)
        × (¬ Wants (probe_arg m)
            → probe rt env (some m) true s
              ≡ ok (
                  responded rt env
                    (record s { wsa = w; events = s.events ++ called_probe (probe_arg m) ∷ [] })
                    empty_vector
                    []))
  device_answers rt env m s w bound fresh headed =
      let (has, lacks) = device_probe-cases (probe_arg m) in
      (
        λ wants.
            (probe-filled rt env m s device (announced ∷ []) w bound fresh headed (has wants)).1
              λ plain. not-IsPlain rt env.grow plain.0,
        λ other.
            (probe-filled rt env m s device [] w bound fresh headed (lacks other)).0 tt
            ∙ ap
                (λ v. ok (
                  responded rt env
                    (record s { wsa = w; events = s.events ++ called_probe (probe_arg m) ∷ [] }) v
                    []))
                (filled-nil rt env.grow),
      )
