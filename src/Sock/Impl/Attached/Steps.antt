-- ===== src/Sock/Impl/Attached/Steps.antt =====
-- Any sequence of calls through the callbacks of a `Sock`.
use onvifxx.Base.{ℕ, ◌≡◌, subst, Option, List, [], ◌∷◌}
use onvifxx.Base.Chars.{Text}
use onvifxx.Base.Outcome.{ok, >>=-eq-ok, ok-injective}
use onvifxx.Sock.Asio.{Asio}
use onvifxx.Sock.Impl.{Soap, open_endpoint, connect, close, send, recv, checked, resolve, serveloop}
use onvifxx.Sock.Impl.Calls.{
  Call, opens, connects, closes, polls, ignores, accepts, serves, sends, receives, resolves, step,
  run,
}
use onvifxx.Sock.Impl.Attached.{
  IsAttached, close-IsAttached, send-IsAttached, recv-IsAttached, connect-IsAttached,
  checked-IsAttached, resolve-IsAttached, serveloop-IsAttached,
}

module _ {asio : Asio} (resolver : Text → Text → Option ℕ) (origin : Soap asio) where
  -- Every callback leaves the `Sock` attached, whatever it returns.
  pub step-IsAttached :
      (c : Call) (w w' : Soap asio)
      → IsAttached origin w
      → step resolver c w ≡ ok w'
      → IsAttached origin w'
  unfolding step open_endpoint
  step-IsAttached (opens endpoint host port) w w' a e =
      let (r, call, left) = >>=-eq-ok (connect endpoint host port w) (λ r. ok r.1) e in
      subst (IsAttached origin) (ok-injective left) (connect-IsAttached origin w a _ _ _ r call)
  step-IsAttached (connects endpoint host port) w w' a e =
      let (r, call, left) = >>=-eq-ok (connect endpoint host port w) (λ r. ok r.1) e in
      subst (IsAttached origin) (ok-injective left) (connect-IsAttached origin w a _ _ _ r call)
  step-IsAttached closes w w' a e =
      let (r, call, left) = >>=-eq-ok (close w) (λ r. ok r.1) e in
      subst (IsAttached origin) (ok-injective left) (close-IsAttached origin w a r call)
  step-IsAttached (sends text) w w' a e =
      let (r, call, left) = >>=-eq-ok (send text w) (λ r. ok r.1) e in
      subst (IsAttached origin) (ok-injective left) (send-IsAttached origin w a text r call)
  step-IsAttached (receives n) w w' a e =
      let (r, call, left) = >>=-eq-ok (recv n w) (λ r. ok r.2) e in
      subst (IsAttached origin) (ok-injective left) (recv-IsAttached origin w a n r call)
  step-IsAttached (resolves addr) w w' a e =
      let (r, call, left) = >>=-eq-ok (resolve resolver addr w) (λ r. ok r.2) e in
      subst (IsAttached origin) (ok-injective left)
        (resolve-IsAttached origin w a resolver addr r call)
  step-IsAttached polls w w' a e =
      let (r, call, left) = >>=-eq-ok (checked w) (λ r. ok r.1) e in
      subst (IsAttached origin) (ok-injective left) (checked-IsAttached origin w a r call)
  step-IsAttached ignores w w' a e =
      let (r, call, left) = >>=-eq-ok (checked w) (λ r. ok r.1) e in
      subst (IsAttached origin) (ok-injective left) (checked-IsAttached origin w a r call)
  step-IsAttached accepts w w' a e =
      let (r, call, left) = >>=-eq-ok (checked w) (λ r. ok r.1) e in
      subst (IsAttached origin) (ok-injective left) (checked-IsAttached origin w a r call)
  step-IsAttached serves w w' a e =
      let (r, call, left) = >>=-eq-ok (serveloop w) (λ r. ok r.1) e in
      subst (IsAttached origin) (ok-injective left) (serveloop-IsAttached w a r call)

  -- Any sequence of calls through the callbacks that succeeds keeps `IsAttached`: the callbacks stay
  -- `Impl`'s, those of `origin` stay saved, the back pointer and the address stay right, and there is
  -- one live connection more than at `origin` if `Impl` holds one, else none.
  pub run-IsAttached :
      (cs : List Call) (w w' : Soap asio)
      → IsAttached origin w
      → run resolver cs w ≡ ok w'
      → IsAttached origin w'
  unfolding run
  run-IsAttached [] w w' a e = subst (IsAttached origin) (ok-injective e) a
  run-IsAttached (c ∷ cs) w w' a e =
      let (v, first, rest) = >>=-eq-ok (step resolver c w) (run resolver cs) e in
      run-IsAttached cs v w' (step-IsAttached c w v a first) rest
