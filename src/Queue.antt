-- ===== src/Queue.antt =====
-- `sfp::asio::MessageQueueImpl` of include/sfp/asio/messagequeue.hpp: its state, and the interfaces of
-- what it is built on, the stream and `util::ProducerConsumerQueue`.
pub mod Pumps
pub mod Operations
pub mod Quiet
pub mod Accounts
pub mod Outbox
pub mod Writes
pub mod Steps
pub mod Soundness
pub mod Promises
pub mod Voided
pub mod Callbacks
pub mod Receives
pub mod Nested
pub mod Sending
pub mod Receiving
pub mod Messages
pub mod Attempts
pub mod Silence
use libsfp.Base.{
  ℕ, zero, suc, ◌-◌, List, [], ◌∷◌, ◌++◌, ◌≡◌, ◌⊎◌, Bool, true, false, if◌then◌else◌, length, tail,
  ◌==◌,
}
use libsfp.State.{Context, Packet}
use libsfp.Errors.{ErrorCode, no_error}

-- kSfpMaxHandshakeAttempts.
abbrev pub max_handshake_attempts : ℕ
max_handshake_attempts = 50

pub data ℤ : Type 0 where
  pos : ℕ → ℤ
  negsuc : ℕ → ℤ

-- `depth() < 0` and `depth() > 0`, and the absolute value.
abbrev pub is_negative : ℤ → Bool
is_negative (pos n) = false
is_negative (negsuc n) = true

abbrev pub is_positive : ℤ → Bool
is_positive (pos zero) = false
is_positive (pos (suc n)) = true
is_positive (negsuc n) = false

abbrev pub magnitude : ℤ → ℕ
magnitude (pos n) = n
magnitude (negsuc n) = suc n

-- The functions that the code gives to `consume`: the one of `asyncReceive`, with the size of its
-- destination and the user's handler, and the one of `voidReceives`, which discards the message.
pub data Consumer : Type 0 where
  receive : (size handler : ℕ) → Consumer
  discard : Consumer

-- The call of a consumer with an error code and a message.
abbrev pub Call : Type 0
Call = Consumer × ErrorCode × Packet

-- What is produced into a queue whose consumers these are calls the first one, if there is one.
abbrev pub called_first : List Consumer → ErrorCode → Packet → List Call
called_first [] ec p = []
called_first (c ∷ cs) ec p = (c, ec, p) ∷ []

-- A consumer of a queue that stores these takes the first one, if there is one.
abbrev pub called_with : Consumer → List (ErrorCode × Packet) → List Call
called_with c [] = []
called_with c ((ec, p) ∷ stored) = (c, ec, p) ∷ []

abbrev pub stored_after :
    List Consumer → List (ErrorCode × Packet) → ErrorCode × Packet → List (ErrorCode × Packet)
stored_after [] stored item = stored ++ item ∷ []
stored_after (c ∷ cs) stored item = stored

abbrev pub waiting_after : List (ErrorCode × Packet) → List Consumer → Consumer → List Consumer
waiting_after [] waiting c = waiting ++ c ∷ []
waiting_after (item ∷ stored) waiting c = waiting

abbrev pub depth_of : (stored waiting : ℕ) → ℤ
depth_of n zero = pos n
depth_of n (suc m) = negsuc m

-- `util::ProducerConsumerQueue`, by the items that it stores and the consumers that wait for one,
-- of which there are never both. The calls are those that an operation makes.
pub record ReceiveQueue (Q : Type 0) : Type 0 where
  pub depth : Q → ℤ
  pub produce : ErrorCode → Packet → Q → Q × List Call
  pub consume : Consumer → Q → Q × List Call
  pub stored : Q → List (ErrorCode × Packet)
  pub waiting : Q → List Consumer
  pub one_sided : (q : Q) → (waiting q ≡ []) ⊎ (stored q ≡ [])
  pub depth_lem : (q : Q) → depth q ≡ depth_of (length (stored q)) (length (waiting q))
  pub produce_calls :
      (ec : ErrorCode) (p : Packet) (q : Q) → (produce ec p q).1 ≡ called_first (waiting q) ec p
  pub waiting-produce :
      (ec : ErrorCode) (p : Packet) (q : Q) → waiting (produce ec p q).0 ≡ tail (waiting q)
  pub stored-produce :
      (ec : ErrorCode) (p : Packet) (q : Q)
      → stored (produce ec p q).0 ≡ stored_after (waiting q) (stored q) (ec, p)
  pub consume_calls : (c : Consumer) (q : Q) → (consume c q).1 ≡ called_with c (stored q)
  pub stored-consume : (c : Consumer) (q : Q) → stored (consume c q).0 ≡ tail (stored q)
  pub waiting-consume :
      (c : Consumer) (q : Q) → waiting (consume c q).0 ≡ waiting_after (stored q) (waiting q) c

-- A stream of Boost.Asio. A stream that was closed is not open, whatever `close` returns.
pub record ByteStream (S : Type 0) : Type 0 where
  pub is_open : S → Bool
  pub shutdown : S → S × ErrorCode
  pub close_stream : S → S × ErrorCode
  pub is_open-close : (s : S) → is_open (close_stream s).0 ≡ false

-- Which of the two `StreamWrapper` templates wraps the stream.
pub data StreamKind : Type 0 where
  plain socket : StreamKind

-- The handlers that wait for a write: the user's, the one of `handleRead`, and the operations that
-- are resumed, the handshake with its number of tries.
pub data SendHandler : Type 0 where
  user_send : ℕ → SendHandler
  continue_read_pump : SendHandler
  handshake_flushed : (handler tries : ℕ) → SendHandler
  keepalive_sent : (handler : ℕ) → SendHandler

-- The operations that wait for the timer.
pub data WaitHandler : Type 0 where
  handshake_waited : (handler tries : ℕ) → WaitHandler
  handshake_settled : (handler tries : ℕ) → WaitHandler
  keepalive_waited : (handler : ℕ) → WaitHandler

pub record SendData : Type 0 where
  pub buffer : List ℕ
  pub handler : SendHandler

-- What the user sees, in order: each call of a handler with its arguments (the octets are those
-- that were copied to the destination); each assertion that failed; and each access to the front of
-- an empty queue, which is undefined.
pub data Completion : Type 0 where
  sent : (handler : ℕ) → ErrorCode → Completion
  received : (handler : ℕ) → ErrorCode → List ℕ → Completion
  handshaken : (handler : ℕ) → ErrorCode → Completion
  kept_alive : (handler : ℕ) → ErrorCode → Completion
  assertion_failed : Completion
  undefined : Completion

pub record MessageQueue (H Q S : Type 0) : Type 0 where
  pub receive_queue : Q
  pub write_buffer : List ℕ
  pub outbox : List SendData
  pub read_pump_running : Bool
  pub read_pump_error : ErrorCode
  pub stream_kind : StreamKind
  pub stream : S
  pub context : Context H
  pub handshake_complete : Bool
  -- Not fields of the source's: the buffers that `async_write` was called with and has not called back
  -- for, how many calls of `async_read_some` have not been called back, the operations that wait for
  -- the timer and those whose wait was cancelled, and what the user has seen.
  pub writing : List (List ℕ)
  pub reading : ℕ
  pub timer_waits : List WaitHandler
  pub cancelled_waits : List WaitHandler
  pub completions : List Completion
