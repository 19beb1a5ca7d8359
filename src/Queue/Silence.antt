-- ===== src/Queue/Silence.antt =====
-- When `HandshakeOperation` gives up.
use libsfp.Base.{
  ℕ, zero, suc, ◌+◌, ◌≤◌, List, [], ◌∷◌, ◌++◌, ◌≡◌, refl, sym, ap, ◌∙◌, Bool, true, false,
  if◌then◌else◌, length, drop, arith, ltb, append-nil,
}
use libsfp.State.{
  Context, RingBuffer, Effect, Packet, wrote, delivered, locked, unlocked, assert_failed,
}
use libsfp.Api
use libsfp.Errors.{ErrorCode, no_error, is_error, handshake_failed, make_error_code}
use libsfp.Queue.{
  ReceiveQueue, ByteStream, Completion, sent, received, handshaken, kept_alive, assertion_failed,
  undefined, receive, discard, Call, handshake_flushed, MessageQueue, max_handshake_attempts,
}
use libsfp.Queue.Pumps.{
  consumed, consumed_all, complete, write_callback, produce_received, deliver_callback, call_back,
  on_context, flush_write_buffer,
}
use libsfp.Queue.Operations.{handshake_attempt}
use libsfp.Queue.Attempts.{
  Rests, silent_round, silent_round-attempts, next, next-Rests, attempt-greets,
}

-- The handlers of handshakes that have been called, with their error codes, in order.
abbrev pub handshakes_done : List Completion → List (ℕ × ErrorCode)
handshakes_done [] = []
handshakes_done (sent handler ec ∷ cs) = handshakes_done cs
handshakes_done (received handler ec p ∷ cs) = handshakes_done cs
handshakes_done (handshaken handler ec ∷ cs) = (handler, ec) ∷ handshakes_done cs
handshakes_done (kept_alive handler ec ∷ cs) = handshakes_done cs
handshakes_done (assertion_failed ∷ cs) = handshakes_done cs
handshakes_done (undefined ∷ cs) = handshakes_done cs

handshakes_done-append :
    (xs ys : List Completion)
    → handshakes_done (xs ++ ys) ≡ handshakes_done xs ++ handshakes_done ys
handshakes_done-append [] ys = refl
handshakes_done-append (sent handler ec ∷ xs) ys = handshakes_done-append xs ys
handshakes_done-append (received handler ec p ∷ xs) ys = handshakes_done-append xs ys
handshakes_done-append (handshaken handler ec ∷ xs) ys =
    ap (λ t. (handler, ec) ∷ t) (handshakes_done-append xs ys)
handshakes_done-append (kept_alive handler ec ∷ xs) ys = handshakes_done-append xs ys
handshakes_done-append (assertion_failed ∷ xs) ys = handshakes_done-append xs ys
handshakes_done-append (undefined ∷ xs) ys = handshakes_done-append xs ys

-- Completions that hold no call of a handshake's handler leave the list as it is.
unshaken :
    (cs ds : List Completion)
    → handshakes_done ds ≡ []
    → handshakes_done (cs ++ ds) ≡ handshakes_done cs
unshaken cs ds none_done =
    handshakes_done-append cs ds ∙ ap (λ t. handshakes_done cs ++ t) none_done ∙ append-nil _

handshakes_done-if :
    (b : Bool) (h : ℕ) (e f : ErrorCode) (p q : Packet)
    → handshakes_done (if b then received h e p ∷ [] else received h f q ∷ []) ≡ []
handshakes_done-if true h e f p q = refl
handshakes_done-if false h e f p q = refl

handshakes_done-consumed_all : (calls : List Call) → handshakes_done (consumed_all calls) ≡ []
unfolding consumed_all consumed
handshakes_done-consumed_all [] = refl
handshakes_done-consumed_all ((receive size h, ec, p) ∷ calls) =
    handshakes_done-append (consumed (receive size h, ec, p)) (consumed_all calls)
    ∙ ap (λ t. t ++ handshakes_done (consumed_all calls))
        (handshakes_done-if (is_error ec) h _ _ _ _)
    ∙ handshakes_done-consumed_all calls
handshakes_done-consumed_all ((discard, ec, p) ∷ calls) = handshakes_done-consumed_all calls

-- After so many tries, what a handshake's handler was called with.
abbrev pub verdict : (handler tries : ℕ) → List (ℕ × ErrorCode)
verdict handler tries =
    if ltb max_handshake_attempts tries
    then (handler, make_error_code handshake_failed) ∷ []
    else []

not_over : (n : ℕ) → ltb max_handshake_attempts n ≡ false → n ≤ max_handshake_attempts
not_over n e = ground arith

module _ {H Q S : Type 0} ⦃rq : ReceiveQueue Q⦄ where
  call_back-handshakes :
      (es : List Effect) (q : MessageQueue H Q S)
      → handshakes_done (call_back es q).completions ≡ handshakes_done q.completions
  unfolding call_back write_callback deliver_callback produce_received complete
  call_back-handshakes [] q = refl
  call_back-handshakes (wrote f d octets ∷ es) q = call_back-handshakes es (write_callback octets q)
  call_back-handshakes (delivered f d p ∷ es) q =
      call_back-handshakes es (deliver_callback p q)
      ∙ unshaken q.completions (consumed_all (rq.produce no_error p q.receive_queue).1)
          (handshakes_done-consumed_all (rq.produce no_error p q.receive_queue).1)
  call_back-handshakes (locked f d ∷ es) q = call_back-handshakes es q
  call_back-handshakes (unlocked f d ∷ es) q = call_back-handshakes es q
  call_back-handshakes (assert_failed ∷ es) q =
      call_back-handshakes es (complete assertion_failed q)
      ∙ unshaken q.completions (assertion_failed ∷ []) refl

  on_context-handshakes :
      (f : Context H → Context H) (q : MessageQueue H Q S)
      → handshakes_done (on_context f q).completions ≡ handshakes_done q.completions
  unfolding on_context
  on_context-handshakes f q =
      call_back-handshakes (drop (length q.context.trace) (f q.context).trace)
        (record q { context = f q.context })

module _ {H Q S : Type 0} ⦃rb : RingBuffer H⦄ ⦃rq : ReceiveQueue Q⦄ ⦃bs : ByteStream S⦄ where
  unfoldable pub silent_rounds : ℕ → MessageQueue H Q S → MessageQueue H Q S
  unfolding silent_round
  silent_rounds zero q = q
  silent_rounds (suc n) q = silent_rounds n (silent_round q)

  attempt-verdict :
      (handler tries : ℕ) (q : MessageQueue H Q S)
      → Rests q
      → handshakes_done (handshake_attempt handler tries q).completions
        ≡ handshakes_done q.completions ++ verdict handler tries
  unfolding complete handshake_attempt
  attempt-verdict handler tries q r = by_tries (ltb max_handshake_attempts tries) refl
    where
      by_tries :
          (b : Bool)
          → ltb max_handshake_attempts tries ≡ b
          → handshakes_done (handshake_attempt handler tries q).completions
            ≡ handshakes_done q.completions
              ++ (if b then (handler, make_error_code handshake_failed) ∷ [] else [])
      by_tries true e =
          ap
            (λ c.
              handshakes_done
                (if c
                  then complete (handshaken handler (make_error_code handshake_failed)) q
                  else flush_write_buffer (handshake_flushed handler (tries + 1))
                      (on_context Api.connect q)).completions)
            e
          ∙ handshakes_done-append q.completions
              (handshaken handler (make_error_code handshake_failed) ∷ [])
      by_tries false e =
          ap (λ s. handshakes_done s.completions)
            (attempt-greets handler tries q r (not_over tries e))
          ∙ on_context-handshakes Api.connect q
          ∙ sym (append-nil _)

  silent_rounds-verdict :
      (k handler tries : ℕ) (q : MessageQueue H Q S)
      → Rests q
      → tries + k ≤ max_handshake_attempts + 1
      → handshakes_done (silent_rounds k (handshake_attempt handler tries q)).completions
        ≡ handshakes_done q.completions ++ verdict handler (tries + k)
  unfolding silent_rounds
  silent_rounds-verdict zero handler tries q r le =
      attempt-verdict handler tries q r
      ∙ ap (λ n. handshakes_done q.completions ++ verdict handler n) (omega arith)
  silent_rounds-verdict (suc k) handler tries q r le =
      ap (λ s. handshakes_done (silent_rounds k s).completions)
        (silent_round-attempts handler tries q r (omega (arith, le)))
      ∙ silent_rounds-verdict k handler (tries + 1) (next q) (next-Rests q r) (omega (arith, le))
      ∙ ap (λ t. t ++ verdict handler (tries + 1 + k)) (on_context-handshakes Api.connect q)
      ∙ ap (λ n. handshakes_done q.completions ++ verdict handler n) (omega arith)

  -- A handshake with an other end that is silent, from a queue with nothing under way, an open stream, no
  -- error of the read pump and a write callback: as long as no more than 50 writes of its SYN0 frames and
  -- waits for the timer are over, the handler is not called; after the 51st it is called, once, with
  -- HANDSHAKE_FAILED.
  pub silent_handshake-fails :
      (k handler : ℕ) (q : MessageQueue H Q S)
      → Rests q
      → k ≤ max_handshake_attempts + 1
      → handshakes_done (silent_rounds k (handshake_attempt handler 0 q)).completions
        ≡ handshakes_done q.completions ++ verdict handler k
  silent_handshake-fails k handler q r le =
      silent_rounds-verdict k handler 0 q r (omega (arith, le))
      ∙ ap (λ n. handshakes_done q.completions ++ verdict handler n) (omega arith)
