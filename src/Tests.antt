-- ===== src/Tests.antt =====
-- A ring buffer and contexts to run the model on, and the theorems at concrete inputs.
pub mod Buffer
pub mod Contexts
pub mod Framing
pub mod Linking
pub mod Running
pub mod Queues
pub mod Asio
pub mod Streams
