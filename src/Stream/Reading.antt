-- ===== src/Stream/Reading.antt =====
-- `read_op`, with any results of its reads and writes.
use libsfp.Stream.Reads.{Reads}
