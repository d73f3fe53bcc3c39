-- ===== src/Exchange.antt =====
-- How the parts of wsdd/ meet: the proxies of a process, a network, and a service behind it.
pub mod Bound
pub mod Question
pub mod Receiving
pub mod Node
pub mod Process
pub mod Delivery
pub mod Device
