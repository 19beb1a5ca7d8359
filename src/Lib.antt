-- ===== src/Lib.antt =====
-- The serial framing protocol: a reliable, ordered link of packets over a line of octets.
--
-- The program. A user's packet becomes a frame: a header octet with a frame type and a six-bit
-- sequence number, the payload, and a CRC, all stuffed so that FLAG octets mark where frames begin
-- and end. The transmitter keeps the newest packets in a history. A receiver that meets a frame
-- out of order or a bad CRC answers with a NAK, on which the transmitter sends its history again
-- as RTX frames. Three SYN frames connect the two ends, a fourth one disconnects.
--
-- The files, and the code that they model (src/serial_framing_protocol.cpp if no other is named):
--   Base      Boolean tests, lists and fixed-width words that all files share
--   State     the types of include/sfp/serial_framing_protocol.h; `Context` is `SFPcontext`
--   Crc       `_crc_ccitt_update`; below it the residue, and which changes the CRC detects
--   Frame     octets and headers (`nextSeq`, `getFrameType`, ...), and `encode_frame`, which says
--             what a frame looks like on the wire
--   Transmit  from `sfpBufferedWrite` up to `sfpTransmitFrameImpl`, and the transmitter's lock;
--             below it what is sent, as calls of the write callback, against `encode_frame`
--   History   `sfpClearHistory`, `sfpTransmitHistory`, `sfpTransmitHistoryFromSeq`
--   Handle    `sfpHandleFrame` and the handlers of USR, RTX, NAK and SYN frames
--   Receive   `sfpDeliverOctet`; below it the octets of a frame that arrives
--   Api       the other entry points: `sfpInit`, `sfpConnect`, `sfpWritePacket`, ...
--   Trace     what the calls of the callbacks come to: octets written, packets delivered
--   Link      the two ends of a link: delivery, refusal, damage, resending, the handshake
--   Safety    what holds from any context: the state machine, what one octet can do, the bounds
--   Node      `sfp::Context` of include/sfp/context.hpp
--   Stream    include/sfp/stream.hpp: `deliver_input_sequence` and `on_sfp_write`; Stream/Operations
--             its asynchronous operations
--   Errors    include/sfp/status.hpp and src/system_error.cpp, and the error codes of Boost.Asio that
--             the code names
--   Queue     `MessageQueueImpl` of include/sfp/asio/messagequeue.hpp: its state and what it is built
--             on; Queue/Pumps its private methods, Queue/Operations the public ones with the timed
--             operations, Queue/Steps the queue as a state machine; below it also what it promises
--             to who sends and who receives, and the way of a packet from one queue to another
--   Tests     instances of the interfaces, and the theorems at concrete inputs
--
-- State. An operation takes the context and returns it, with its result where it has one; a
-- function with `size_t *outlen` returns that number. The calls of the user's callbacks and the
-- failed assertions are recorded in `trace`, in order; after a failed assertion the model goes
-- on, as a build with NDEBUG does. A scope of `TransmitterLock` is `with_lock`. Of the buffers of
-- packets and of the write buffer the model holds the octets in use; the bounds of the source are
-- tested where it tests them. Octets and sequence numbers are natural numbers, and their casts and
-- masks are written out. `util::PotRingbuffer` is not in the repository: it is the interface
-- `RingBuffer`, by the packets that it holds.
--
-- The message queue. `util::ProducerConsumerQueue` and the stream of Boost.Asio are not in the
-- repository: they are the interfaces `ReceiveQueue`, by the items that are stored and the consumers
-- that wait, which calls a consumer at once when there is an item for it, and `ByteStream`. What the
-- service still has to call back is in the state: the buffers of `async_write`, the number of reads,
-- and the operations that wait for the timer or whose wait was cancelled; `Step` calls them, in any
-- order. A handler of the user is a number, and its calls are recorded in `completions`. A handler
-- that is a lambda or an operation of the code is a constructor, and `call_handler`, `handle_wait` do
-- what it does. `makeOperation` of util is taken to run an operation until it yields, and to call
-- its handler with its result when it ends. A handler of the user makes no calls of its own, but for
-- `handle_written`, which takes what the handler does as an argument.
--
-- The operations of include/sfp/stream.hpp. Each is a function of the results of the reads and writes
-- that it starts, given as a list of rounds of its loop, and stops where it completes, where an exception
-- leaves it, or where the rounds end: it waits then, or, under `composed::timed`, its time is over.
-- `writes` records the buffers that were written. `on_sfp_write` throws where the write buffer would
-- hold more than 1024 octets: its result, and that of every call that it leaves, is `none` then, and
-- `throws` that of an operation. What the context writes is read off its trace, in order, once the octets
-- are fed; the exception leaves at the first call that has no room, and nothing is said of the state
-- that it leaves behind. The limit of the read buffer is never met, since it is emptied before a read of
-- at most 256 octets.
--
-- Loops are structural, but for these, which have fuel: `sfpClearHistory`, with the size of the history,
-- since a packet is removed in every round; the loops of `voidReceives`, with the depth of the queue,
-- which every round takes one nearer to 0; and `voidOutbox`, with the size of the outbox, from which
-- every round removes an element.
--
-- Not modelled: callbacks that enter the context they are called from; the debug strings and the
-- log; `sfpGetSizeof`; the variant of the CRC for AVR; `make_error_condition`, which nothing uses; the
-- class `MessageQueue`, which forwards to its implementation; the lengths of the timer's waits; in
-- include/sfp/stream.hpp two operations that wait for the write phaser at once, and the state that an
-- exception leaves behind.
mod Base
pub mod Crc
pub mod State
pub mod Frame
pub mod Transmit
pub mod History
pub mod Handle
pub mod Receive
pub mod Api
pub mod Trace
pub mod Link
pub mod Safety
pub mod Node
pub mod Stream
pub mod Errors
pub mod Queue
pub mod Tests
