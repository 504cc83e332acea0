-- ===== src/Tests.antt =====
-- The theorems at concrete inputs.
mod Buffers
mod Sockets
mod Databases
mod Connections
mod Threads
mod Servers
mod Services
mod Logins
