-- ===== src/Wsdd.antt =====
-- wsdd/: WS-Discovery over the gSOAP runtime.
pub mod Uuid
pub mod Gsoap
pub mod Wsa
pub mod Messages
pub mod Proxy
pub mod Matches
pub mod Lifetime
pub mod Service
