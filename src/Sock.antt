-- ===== src/Sock.antt =====
-- sock/: a transport for gSOAP over Boost.Asio.
pub mod Asio
pub mod Tcp
pub mod Udp
pub mod Endpoint
pub mod Ip
pub mod Hooks
pub mod Impl
