-- ===== src/Lib.antt =====
-- The discovery of ONVIF devices by WS-Discovery, as the library onvifxx implements it over gSOAP and
-- Boost.Asio.
--
-- A client uses `RemoteDiscovery::proxy()`, whose methods hello, bye and probe build a WS-Addressing
-- header, fill a message and send it to a multicast group. A device uses `RemoteDiscovery::service()`:
-- gSOAP's dispatch hands each message to a method that passes it to the object that the service is
-- bound to, and answers a probe. A `Sock` attached to a `struct soap` replaces gSOAP's transport by
-- TCP or UDP connections of Boost.Asio.
--
-- Base passes on the library's names and holds what the components share. Base.Outcome is the result
-- of code that may run into undefined behaviour or a failed assertion: `ok`, or `fault` with the
-- reason. An exception is no fault: a method that may throw gives an `Ended`.
--
-- Exceptions: src/onvifxx.cpp and include/onvifxx/onvifxx.hpp. `soap_exception` and `unix_exception`
-- are the constructors.
-- Sock: sock/. Sock.Endpoint is `Endpoint::fromUrl` of sock/sock.cpp, with the grammar of addresses in
-- Sock.Endpoint.Url. Sock.Tcp and Sock.Udp are `Tcp` and `Udp`, over the record Sock.Asio that stands
-- for Boost.Asio, and Sock.Ip is `Ip` with its virtual functions. Sock.Hooks holds the callbacks of a
-- `struct soap`. Sock.Impl is the constructor and the destructor of `Sock` and the callbacks of
-- `Sock::Impl`, under their names (`open_endpoint` for open; `checked` for ignore, accept and poll,
-- which do the same). Its children have the calls as a data type with a step function, and the proofs.
-- Wsdd: wsdd/. Wsdd.Gsoap holds what the code uses of gSOAP and of the classes it generates; a
-- `Runtime` stands for how they initialise objects. Wsdd.Uuid is `Wsa::randUuid`, `rand_uuid` in the
-- build without OpenSSL and `openssl_uuid` in that with it; Wsdd.Wsa the other
-- methods of `Wsa` on a `State`, which is the header and the static variables. Wsdd.Messages is
-- `Wsa::Request` and `RemoteDiscoveryService::Arg`. Wsdd.Proxy is `RemoteDiscoveryProxy`.
-- Wsdd.Service is `RemoteDiscoveryService`, with the vector `matches_` in Wsdd.Matches and the output
-- calls of `Probe` in Wsdd.Service.Output; its `copy` makes a service that Wsdd.Service.Unbound is
-- about. Wsdd.Lifetime has the constructors, the destructors as the lists of their calls, the functions
-- `RemoteDiscovery::proxy` and `service`, and what `BaseService` passes on.
-- Device: examples/ws-discovery/, a device on the library. Device.Types is the loop of `Wsdd::probe`
-- that strips the prefixes of types, Device.Matching the rest of it with `isMatched`, Device.Main
-- `baseName`, `exec` and `signalHandler`, Device.Serving `runService`, and Device.Log the log, with what
-- comes of a line in Device.Log.Lines. What the program writes is a `Note` of Device.Notes for each use
-- of `LOG`, with its line in the source: `exec` gives the notes of the main thread, and the actions of
-- `runService` contain those of the other thread. Device.Reports has those of `Wsdd::Wsdd`, `hello`,
-- `bye`, `probe` and `Wsdd::~Wsdd`, and Device.Start is `main`. Device.Log.Shared is one log behind two
-- threads: what they insert with `<<` are calls of the buffer, one for each byte, and a flush behind the
-- line feed of `std::endl`, and the calls come in any order of the two, one after the other (in the code
-- two at once are a data race); Device.Threads.Logged puts the notes of both
-- threads there. Device.Threads is the program as two threads: a step relation in which the
-- main thread (`exec`, and the handler that its `ios_.run()` calls) and the thread of `runService` take
-- turns in any order; Device.Threads.Runs sets it against `exec` and `runService` as each is modelled
-- alone. `boost::algorithm::split` is a parameter, and so is what `LOG` writes for a line.
-- Exchange: the parts together. Exchange.Process is a process with any number of proxies. The static
-- variables of wsdd/wsa.cpp are one record, which a call takes over into the `State` of its proxy and
-- leaves for the next call. Exchange.Receiving is a service that receives messages, with the header of
-- each, and Exchange.Delivery takes those of a process there over a network; the network is the list
-- of the messages that arrive, each of which was sent, so that it may lose, repeat and reorder them.
-- Exchange.Node has the proxies and the services of a process together, over the same static
-- variables. Exchange.Bound is about who hears a service that is bound again, and Exchange.Question
-- follows a probe to the header of its answer. Exchange.Device puts the device of the example behind
-- the service, Exchange.Device.Logged its log, and Exchange.Device.Announced follows what it says of
-- itself. Exchange.Device.Loop runs the loop of `runService` over that service: Device.Serving.Client
-- has the loop as a client of `Service`, a record of operations that Server stands for. What the generated
-- class and gSOAP do in accept, serve and destroy is a parameter there, and IsGsoap says what the loop
-- relies on of it; what the calls meet is a list of missing sockets, messages and requests that break
-- off. Exchange.Device.Loop.Logged is about announcements and the log, Exchange.Device.Loop.Answers about
-- probes among them.
-- Tests: runs on concrete data.
--
-- A text is the list of its bytes, an `int` of the random generator an integer that the theorems
-- bound, an unsigned number a natural number with its `% 2 ^ 32`. A pointer is an option of what it
-- points to, and a null pointer that is followed is a fault. Where lifetimes matter, in Wsdd.Matches,
-- a pointer is a place: a temporary, or an index in a block of the vector. The loops of the code are
-- structural recursion, with three rounds in `find_scheema` for the three schemes. Fuel stands in two
-- printers, 8 in `print_hex`, since a 32-bit word has 8 hexadecimal digits at most, and in `print_nat`
-- 5 for a port and 10 for the number of a signal, which have no more decimal digits; and in `strip`,
-- where the length of the text and one is enough, as each round removes a byte at least. `exec_loop`
-- and `service_loop` run over the rounds and turns that they are given, `turns` over as many requests
-- as it is told, and Sock.Impl.Calls, Wsdd.Service.Run and Exchange.Process over lists of calls and
-- messages. In Device.Threads there is no fuel: a step of a thread is one of its blocking
-- calls or tests, a call may end in any way, and `ios_.run()` throws nothing.
--
-- Not modelled: the generated classes, the schemas in xml/, the interface of media.hpp, the test
-- program, the many functions of wsdd/ that are commented out, timing (`delay` gives the time it
-- sleeps), that `ios_.stop()` might throw in the signal handler, what `syslog` makes of a percent sign in
-- the format that it is given, and two calls of the log's buffer at the same time. What gSOAP does in the
-- calls of a destructor is its own.
mod Base
mod Tests
pub mod Exceptions
pub mod Sock
pub mod Wsdd
pub mod Device
pub mod Exchange
