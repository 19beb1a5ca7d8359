-- ===== src/Link.antt =====
-- Two contexts and the wire between them: what one writes is what the other is given, octet by octet.
pub mod Accept
pub mod Delivery
pub mod Sending
pub mod Kept
pub mod Refuse
pub mod Damage
pub mod Oversize
pub mod Calls
pub mod Control
pub mod Greeting
pub mod Syns
pub mod Handshake
pub mod Resync
pub mod Recovery
