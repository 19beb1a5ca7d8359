-- ===== src/Safety.antt =====
-- What holds of the library from any context, whatever was delivered and whichever callbacks are
-- set: the state machine of the connection, and the packets that are handed to the user.
pub mod Keeps
pub mod Outcome
pub mod Machine
pub mod Octet
pub mod Bounds
pub mod Handlers
pub mod Reach
pub mod Reachable
