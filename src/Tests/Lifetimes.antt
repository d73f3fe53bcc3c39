-- ===== src/Tests/Lifetimes.antt =====
-- Objects as they are made and destroyed.
use onvifxx.Base.{◌≡◌, refl, true, false, none, [], ◌∷◌}
use onvifxx.Base.Chars.{codes}
use onvifxx.Base.Outcome.{fault, wrong_cast}
use onvifxx.Device.Log.{standard}
use onvifxx.Device.Log.Lines.{write_line-cast}
use onvifxx.Device.Reports
use onvifxx.Exceptions.{message_of}
use onvifxx.Wsdd.Lifetime.{
  generated_destroy, soap_destroy, soap_end, soap_done, proxy_cleanup, service_cleanup, proxy,
  service, create_proxy,
}
use onvifxx.Wsdd.Proxy.{url}
use onvifxx.Wsdd.Service
use onvifxx.Wsdd.Uuid.{clock_word, openssl_uuid, uuid_text}
use onvifxx.Tests.Data.{rt, with_header}

-- The member `wsa_` is destroyed behind `soap_done`.
cleaned : proxy_cleanup ≡ generated_destroy ∷ soap_done ∷ soap_destroy ∷ soap_end ∷ []
cleaned = refl

cleaned_too : service_cleanup ≡ proxy_cleanup
cleaned_too = refl

-- A new proxy has sent nothing, and a new service has no object.
new_proxy : (proxy rt (with_header none)).proxy.sent ≡ []
unfolding proxy create_proxy
new_proxy = refl

multicast_endpoint :
    (proxy rt (with_header none)).endpoint ≡ codes "soap.udp://239.255.255.250:3702"
unfolding proxy create_proxy url
multicast_endpoint = refl

new_service : (service rt (with_header none)).p ≡ none
unfolding service Service.create
new_service = refl

-- With `gettimeofday`, ten million and not one million of microseconds make a second.
after_a_second : clock_word true 1 0 ≡ 10000000
unfolding clock_word
after_a_second = refl

with_time : clock_word false 7 5 ≡ 7
unfolding clock_word
with_time = refl

exited : Reports.destroy (λ n. []) standard ≡ fault wrong_cast
unfolding Reports.destroy
exited = write_line-cast _ 6 refl

openssl : openssl_uuid 1 2 3 4 ≡ uuid_text 1 2 3 4
unfolding openssl_uuid
openssl = refl

no_message : message_of none ≡ []
unfolding message_of
no_message = refl
