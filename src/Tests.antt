-- ===== src/Tests.antt =====
-- Runs of the code on concrete data, and the theorems at such data.
mod Data
mod Sockets
mod Headers
mod Exchange
mod Network
mod Threads
mod Lifetimes
mod Example
mod Logs
mod Nodes
mod Probes
mod Loops
