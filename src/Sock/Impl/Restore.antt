-- ===== src/Sock/Impl/Restore.antt =====
-- Attaching a `Sock` and destroying it again.
use onvifxx.Base.{ℕ, ◌+◌, ◌≡◌, sym, ap, ◌∙◌, Option, none, some, List, arith}
use onvifxx.Base.Chars.{Text}
use onvifxx.Base.Outcome.{ok, ◌>>=◌, deref}
use onvifxx.Sock.Asio.{Asio}
use onvifxx.Sock.Impl.{Soap, Impl, create, destroy}
use onvifxx.Sock.Impl.Calls.{Call, run}
use onvifxx.Sock.Impl.Attached.{create-IsAttached, owned}
use onvifxx.Sock.Impl.Attached.Steps.{run-IsAttached}

module _ {asio : Asio} where
  create-user : (origin w : Soap asio) → create (some origin) ≡ ok w → origin.user ≡ none
  unfolding create
  create-user origin w e = ground arith

  destroy-user :
      (w : Soap asio) (impl : Impl asio)
      → w.user ≡ some impl
      → destroy w ≡ ok (record w { hooks = impl.context; user = none })
  unfolding destroy
  destroy-user w impl e =
      ap (λ u. deref u >>= λ impl. ok (record w { hooks = impl.context; user = none })) e

  -- After a `Sock` is created on `origin` and any calls through its callbacks succeed, the
  -- destructor succeeds and gives `origin` back its callbacks and its null `user` pointer; address and
  -- other callbacks never changed. A connection that is open then stays allocated: `Impl` has no
  -- destructor that would delete it.
  pub destroy-run-create :
      (resolver : Text → Text → Option ℕ) (origin w w' : Soap asio) (cs : List Call)
      → create (some origin) ≡ ok w
      → run resolver cs w ≡ ok w'
      → (impl : Impl asio) × (w'.user ≡ some impl)
        × (destroy w'
            ≡ ok (record origin {
              sender_error = w'.sender_error;
              live = origin.live + owned impl.ip;
            }))
  destroy-run-create resolver origin w w' cs made ran =
      let a = run-IsAttached resolver origin cs w w' (create-IsAttached origin w made) ran in
      let null = sym (create-user origin w made) in
      (
        a.impl,
        a.user,
        destroy-user w' a.impl a.user ∙ λ i. ok (record {
          address = a.address i;
          hooks = a.context i;
          others = a.others i;
          user = null i;
          sender_error = w'.sender_error;
          live = a.live i;
        }),
      )
