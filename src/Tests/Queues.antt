-- ===== src/Tests/Queues.antt =====
-- A receive queue and a stream for the message queue, instances of the interfaces that stand for
-- `util::ProducerConsumerQueue` and for a stream of Boost.Asio, and message queues to start from.
use libsfp.Base.{List, [], ◌∷◌, ◌++◌, ◌≡◌, refl, true, false, Bool, inl, inr, length, ◌⊎◌, tail}
use libsfp.State.{Packet}
use libsfp.Errors.{ErrorCode, no_error}
use libsfp.Queue.{
  ReceiveQueue, ByteStream, ℤ, pos, depth_of, Consumer, receive, Call, called_first, called_with,
  stored_after, waiting_after, user_send, plain, MessageQueue, SendData,
}
use libsfp.Queue.Steps.{IsFresh}
use libsfp.Queue.Receives.{IsReady}
use libsfp.Queue.Attempts.{Rests}
use libsfp.Tests.Buffer.{Bounded, list_buffer}
use libsfp.Tests.Contexts.{up_end, up_end-IsIdle}

-- The stored items, or the consumers that wait.
pub data Items : Type 0 where
  holds : List (ErrorCode × Packet) → Items
  awaits : List Consumer → Items

unfoldable pub depth : Items → ℤ
depth (holds items) = pos (length items)
depth (awaits cs) = depth_of 0 (length cs)

unfoldable pub produce : ErrorCode → Packet → Items → Items × List Call
produce ec p (holds items) = (holds (items ++ (ec, p) ∷ []), [])
produce ec p (awaits []) = (holds ((ec, p) ∷ []), [])
produce ec p (awaits (c ∷ cs)) = (awaits cs, (c, ec, p) ∷ [])

unfoldable pub consume : Consumer → Items → Items × List Call
consume c (holds []) = (awaits (c ∷ []), [])
consume c (holds ((ec, p) ∷ items)) = (holds items, (c, ec, p) ∷ [])
consume c (awaits cs) = (awaits (cs ++ c ∷ []), [])

unfoldable pub stored : Items → List (ErrorCode × Packet)
stored (holds items) = items
stored (awaits cs) = []

unfoldable pub waiting : Items → List Consumer
waiting (holds items) = []
waiting (awaits cs) = cs

pub one_sided : (q : Items) → (waiting q ≡ []) ⊎ (stored q ≡ [])
unfolding stored waiting
one_sided (holds items) = inl refl
one_sided (awaits cs) = inr refl

pub depth_lem : (q : Items) → depth q ≡ depth_of (length (stored q)) (length (waiting q))
unfolding depth stored waiting
depth_lem (holds items) = refl
depth_lem (awaits cs) = refl

pub produce_calls :
    (ec : ErrorCode) (p : Packet) (q : Items) → (produce ec p q).1 ≡ called_first (waiting q) ec p
unfolding produce waiting
produce_calls ec p (holds items) = refl
produce_calls ec p (awaits []) = refl
produce_calls ec p (awaits (c ∷ cs)) = refl

pub waiting-produce :
    (ec : ErrorCode) (p : Packet) (q : Items) → waiting (produce ec p q).0 ≡ tail (waiting q)
unfolding produce waiting
waiting-produce ec p (holds items) = refl
waiting-produce ec p (awaits []) = refl
waiting-produce ec p (awaits (c ∷ cs)) = refl

pub stored-produce :
    (ec : ErrorCode) (p : Packet) (q : Items)
    → stored (produce ec p q).0 ≡ stored_after (waiting q) (stored q) (ec, p)
unfolding produce stored waiting
stored-produce ec p (holds items) = refl
stored-produce ec p (awaits []) = refl
stored-produce ec p (awaits (c ∷ cs)) = refl

pub consume_calls : (c : Consumer) (q : Items) → (consume c q).1 ≡ called_with c (stored q)
unfolding consume stored
consume_calls c (holds []) = refl
consume_calls c (holds ((ec, p) ∷ items)) = refl
consume_calls c (awaits cs) = refl

pub stored-consume : (c : Consumer) (q : Items) → stored (consume c q).0 ≡ tail (stored q)
unfolding consume stored
stored-consume c (holds []) = refl
stored-consume c (holds ((ec, p) ∷ items)) = refl
stored-consume c (awaits cs) = refl

pub waiting-consume :
    (c : Consumer) (q : Items) → waiting (consume c q).0 ≡ waiting_after (stored q) (waiting q) c
unfolding consume stored waiting
waiting-consume c (holds []) = refl
waiting-consume c (holds ((ec, p) ∷ items)) = refl
waiting-consume c (awaits cs) = refl

instance unfoldable pub list_queue : ReceiveQueue Items
list_queue = record {
  depth = depth;
  produce = produce;
  consume = consume;
  stored = stored;
  waiting = waiting;
  one_sided = one_sided;
  depth_lem = depth_lem;
  produce_calls = produce_calls;
  waiting-produce = waiting-produce;
  stored-produce = stored-produce;
  consume_calls = consume_calls;
  stored-consume = stored-consume;
  waiting-consume = waiting-consume;
}

-- A stream that is open or closed.
instance unfoldable pub gate : ByteStream Bool
gate = record {
  is_open = λ s. s;
  shutdown = λ s. (s, no_error);
  close_stream = λ s. (false, no_error);
  is_open-close = λ s. refl;
}

-- A queue with a complete handshake; with receives that wait; and whose one send was written.
abbrev pub idle_queue : MessageQueue Bounded Items Bool
idle_queue = record {
  receive_queue = holds [];
  write_buffer = [];
  outbox = [];
  read_pump_running = false;
  read_pump_error = no_error;
  stream_kind = plain;
  stream = true;
  context = up_end;
  handshake_complete = true;
  writing = [];
  reading = 0;
  timer_waits = [];
  cancelled_waits = [];
  completions = [];
}

abbrev pub asking_queue : MessageQueue Bounded Items Bool
asking_queue = record idle_queue { receive_queue = awaits (receive 8 5 ∷ []) }

abbrev pub written_send : SendData
written_send = record { buffer = 1 ∷ 2 ∷ []; handler = user_send 3 }

abbrev pub written_queue : MessageQueue Bounded Items Bool
written_queue = record idle_queue { outbox = written_send ∷ [] }

pub idle_queue-IsFresh : IsFresh idle_queue
idle_queue-IsFresh = record {
  no_outbox = refl;
  not_running = refl;
  no_write = refl;
  no_read = refl;
  no_completion = refl;
}

pub idle_queue-IsReady : IsReady idle_queue
unfolding gate
idle_queue-IsReady = record { completed = refl; no_pump_error = refl; open_stream = refl }

pub asking_queue-IsReady : IsReady asking_queue
unfolding gate
asking_queue-IsReady = record { completed = refl; no_pump_error = refl; open_stream = refl }

pub written_queue-IsReady : IsReady written_queue
unfolding gate
written_queue-IsReady = record { completed = refl; no_pump_error = refl; open_stream = refl }

pub idle_queue-Rests : Rests idle_queue
unfolding gate
idle_queue-Rests = record {
  no_outbox = refl;
  no_write = refl;
  no_waits = refl;
  no_octets = refl;
  no_pump_error = refl;
  open_stream = refl;
  idle = up_end-IsIdle;
}
