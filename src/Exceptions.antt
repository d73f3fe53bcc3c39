-- ===== src/Exceptions.antt =====
-- The exceptions of include/onvifxx/onvifxx.hpp and src/onvifxx.cpp.
use onvifxx.Base.{ℕ, ◌-◌, ◌≡◌, ◌≢◌, refl, Option, none, some, [], ◌==◌, if◌then◌else◌, arith}
use onvifxx.Base.Chars.{Text}
use onvifxx.Base.Int.{ℤ, pos, negsuc}

-- `Exception`, with the `code_` that its subclasses add.
pub record Exception : Type 0 where
  pub message : Text
  pub code : ℤ

-- The text of `Exception()` and of `Exception(const char *)`
unfoldable pub message_of : Option Text → Text
message_of none = []
message_of (some msg) = msg

-- `what()`
pub what : Exception → Text
what e = e.message

-- The part of `struct soap` that is read: `errnum`, and the text that `soap_sprint_fault` writes into
-- a buffer of the given size.
pub record Soap : Type 0 where
  pub errnum : ℤ
  pub sprint_fault : ℕ → Text

-- `SoapException(soap *)`; the pointer may be null
pub soap_exception : Option Soap → Exception
soap_exception none = record { message = []; code = negsuc 0 }
soap_exception (some s) = record { message = s.sprint_fault 1024; code = s.errnum }

-- What `UnixException` reads: `errno`, and `strerror_r` for a code and a buffer size.
pub record Unix : Type 0 where
  pub errno : ℤ
  pub strerror : ℤ → ℕ → Text

is_zero : ℤ → Option ℤ
is_zero (pos n) = if n == 0 then none else some (pos n)
is_zero (negsuc n) = some (negsuc n)

-- `if (code == 0) code = errno;`
pub code_or_errno : Unix → ℤ → ℤ
unfolding is_zero
code_or_errno u code = elim (is_zero code) [ none ↦ u.errno | some c ↦ c ]

-- `UnixException(int)`
pub unix_exception : Unix → ℤ → Exception
unfolding code_or_errno
unix_exception u code =
    let c = code_or_errno u code in record { message = u.strerror c (1024 - 1); code = c }

-- A `UnixException` describes the code that it holds, which is the given one, or `errno` for 0.
pub unix_exception-what :
    (u : Unix) (code : ℤ)
    → (what (unix_exception u code) ≡ u.strerror (unix_exception u code).code 1023)
      × (code ≢ pos 0 → (unix_exception u code).code ≡ code)
      × ((unix_exception u (pos 0)).code ≡ u.errno)
unfolding what unix_exception
unix_exception-what u code = (refl, ground arith, refl)
