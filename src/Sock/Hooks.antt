-- ===== src/Sock/Hooks.antt =====
-- The callbacks of `struct soap` that sock/sock.cpp reads and writes.
use onvifxx.Base.{ℕ, Bool, not, ◌&&◌, true, Option, some, List, [], ◌∷◌, is_some}

-- A function that a callback may point to: one of gSOAP's or of another plugin, or one of `Impl`'s.
pub data Function : Type 0 where
  foreign : ℕ → Function
  impl_open impl_close impl_send impl_recv impl_ignore : Function
  impl_connect impl_accept impl_resolve impl_poll impl_serveloop : Function

abbrev pub Pointer : Type 0
Pointer = Option Function

-- The callbacks that `Sock` replaces, which are also the members of `Impl::context`.
pub record Transport : Type 0 where
  pub fopen : Pointer
  pub fclose : Pointer
  pub fsend : Pointer
  pub frecv : Pointer
  pub fignore : Pointer
  pub fconnect : Pointer
  pub faccept : Pointer
  pub fresolve : Pointer
  pub fpoll : Pointer
  pub fserveloop : Pointer

-- The other callbacks, which it only tests.
pub record Others : Type 0 where
  pub fpost : Pointer
  pub fget : Pointer
  pub fput : Pointer
  pub fdel : Pointer
  pub fopt : Pointer
  pub fhead : Pointer
  pub fform : Pointer
  pub fposthdr : Pointer
  pub fresponse : Pointer
  pub fparse : Pointer
  pub fparsehdr : Pointer
  pub fheader : Pointer
  pub fdisconnect : Pointer
  pub fclosesocket : Pointer
  pub fshutdownsocket : Pointer
  pub fseterror : Pointer
  pub fplugin : Pointer
  pub fmalloc : Pointer
  pub feltbegin : Pointer
  pub feltendin : Pointer
  pub feltbegout : Pointer
  pub feltendout : Pointer
  pub fprepareinitsend : Pointer
  pub fprepareinitrecv : Pointer
  pub fpreparesend : Pointer
  pub fpreparerecv : Pointer
  pub fpreparefinalsend : Pointer
  pub fpreparefinalrecv : Pointer
  pub ffiltersend : Pointer
  pub ffilterrecv : Pointer
  pub fdimereadopen : Pointer
  pub fdimewriteopen : Pointer
  pub fdimereadclose : Pointer
  pub fdimewriteclose : Pointer
  pub fdimeread : Pointer
  pub fdimewrite : Pointer
  pub fmimereadopen : Pointer
  pub fmimewriteopen : Pointer
  pub fmimereadclose : Pointer
  pub fmimewriteclose : Pointer
  pub fmimeread : Pointer
  pub fmimewrite : Pointer

pub all_set : List Pointer → Bool
all_set [] = true
all_set (p ∷ ps) = is_some p && all_set ps

pub all_null : List Pointer → Bool
all_null [] = true
all_null (p ∷ ps) = not (is_some p) && all_null ps

-- The assertions of the constructor on the callbacks.
unfoldable pub unused : Transport → Others → Bool
unfolding all_set all_null
unused t o =
    all_set (o.fpost ∷ o.fget ∷ o.fput ∷ o.fdel ∷ o.fopt ∷ o.fhead ∷ [])
    && all_null (o.fform ∷ [])
    && all_set (o.fposthdr ∷ o.fresponse ∷ o.fparse ∷ o.fparsehdr ∷ [])
    && all_null (o.fheader ∷ t.fresolve ∷ t.fconnect ∷ o.fdisconnect ∷ [])
    && all_set (
        o.fclosesocket ∷ o.fshutdownsocket ∷ t.fopen ∷ t.faccept ∷ t.fclose ∷ t.fsend ∷ t.frecv
        ∷ t.fpoll ∷ [])
    && all_null (o.fseterror ∷ t.fignore ∷ t.fserveloop ∷ [])
    && all_set (o.fplugin ∷ [])
    && all_null (
        o.fmalloc ∷ o.feltbegin ∷ o.feltendin ∷ o.feltbegout ∷ o.feltendout ∷ o.fprepareinitsend
        ∷ o.fprepareinitrecv ∷ o.fpreparesend ∷ o.fpreparerecv ∷ o.fpreparefinalsend
        ∷ o.fpreparefinalrecv ∷ o.ffiltersend ∷ o.ffilterrecv ∷ o.fdimereadopen ∷ o.fdimewriteopen
        ∷ o.fdimereadclose ∷ o.fdimewriteclose ∷ o.fdimeread ∷ o.fdimewrite ∷ o.fmimereadopen
        ∷ o.fmimewriteopen ∷ o.fmimereadclose ∷ o.fmimewriteclose ∷ o.fmimeread ∷ o.fmimewrite ∷ [])

-- What `Sock` installs.
abbrev pub installed : Transport
installed = record {
  fopen = some impl_open;
  fclose = some impl_close;
  fsend = some impl_send;
  frecv = some impl_recv;
  fignore = some impl_ignore;
  fconnect = some impl_connect;
  faccept = some impl_accept;
  fresolve = some impl_resolve;
  fpoll = some impl_poll;
  fserveloop = some impl_serveloop;
}
