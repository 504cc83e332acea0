-- ===== src/Login.antt =====
-- refs/examples/server-2008: a server that reads commands from a file and logs a user in by a state machine.
pub mod Fsm
pub mod Parse
pub mod State
pub mod Run
pub mod Table
pub mod Words
pub mod Session
pub mod Attempts
