-- ===== src/Queue/Callbacks.antt =====
-- What the callbacks of the context leave in the queue.
use libsfp.Base.{
  List, [], ◌∷◌, ◌++◌, ◌≡◌, refl, sym, ap, ◌∙◌, length, drop, append-nil, append_assoc,
}
use libsfp.State.{Context, Effect, wrote, delivered, locked, unlocked, assert_failed}
use libsfp.Trace.{written}
use libsfp.Queue.{ReceiveQueue, assertion_failed, MessageQueue}
use libsfp.Queue.Pumps.{
  complete, write_callback, produce_received, deliver_callback, call_back, on_context,
}

pub drop-prefix : {A : Type 0} (xs ys : List A) → drop (length xs) (xs ++ ys) ≡ ys
drop-prefix [] ys = refl
drop-prefix (x ∷ xs) ys = drop-prefix xs ys

module _ {H Q S : Type 0} ⦃rq : ReceiveQueue Q⦄ where
  call_back-stream :
      (es : List Effect) (q : MessageQueue H Q S) → (call_back es q).stream ≡ q.stream
  unfolding call_back write_callback deliver_callback produce_received complete
  call_back-stream [] q = refl
  call_back-stream (wrote f d octets ∷ es) q = call_back-stream es (write_callback octets q)
  call_back-stream (delivered f d p ∷ es) q = call_back-stream es (deliver_callback p q)
  call_back-stream (locked f d ∷ es) q = call_back-stream es q
  call_back-stream (unlocked f d ∷ es) q = call_back-stream es q
  call_back-stream (assert_failed ∷ es) q = call_back-stream es (complete assertion_failed q)

  -- What the context writes is behind what the buffer holds.
  call_back-write_buffer :
      (es : List Effect) (q : MessageQueue H Q S)
      → (call_back es q).write_buffer ≡ q.write_buffer ++ written es
  unfolding call_back write_callback deliver_callback produce_received complete written
  call_back-write_buffer [] q = sym (append-nil q.write_buffer)
  call_back-write_buffer (wrote f d octets ∷ es) q =
      call_back-write_buffer es (write_callback octets q)
      ∙ append_assoc q.write_buffer octets (written es)
  call_back-write_buffer (delivered f d p ∷ es) q = call_back-write_buffer es (deliver_callback p q)
  call_back-write_buffer (locked f d ∷ es) q = call_back-write_buffer es q
  call_back-write_buffer (unlocked f d ∷ es) q = call_back-write_buffer es q
  call_back-write_buffer (assert_failed ∷ es) q =
      call_back-write_buffer es (complete assertion_failed q)

  pub call_back-append :
      (es fs : List Effect) (q : MessageQueue H Q S)
      → call_back (es ++ fs) q ≡ call_back fs (call_back es q)
  unfolding call_back
  call_back-append [] fs q = refl
  call_back-append (wrote f d octets ∷ es) fs q = call_back-append es fs (write_callback octets q)
  call_back-append (delivered f d p ∷ es) fs q = call_back-append es fs (deliver_callback p q)
  call_back-append (locked f d ∷ es) fs q = call_back-append es fs q
  call_back-append (unlocked f d ∷ es) fs q = call_back-append es fs q
  call_back-append (assert_failed ∷ es) fs q = call_back-append es fs (complete assertion_failed q)

  -- A callback does not touch the context.
  pub call_back-context :
      (es : List Effect) (c : Context H) (q : MessageQueue H Q S)
      → call_back es (record q { context = c }) ≡ record (call_back es q) { context = c }
  unfolding call_back write_callback deliver_callback produce_received complete
  call_back-context [] c q = refl
  call_back-context (wrote f d octets ∷ es) c q = call_back-context es c (write_callback octets q)
  call_back-context (delivered f d p ∷ es) c q = call_back-context es c (deliver_callback p q)
  call_back-context (locked f d ∷ es) c q = call_back-context es c q
  call_back-context (unlocked f d ∷ es) c q = call_back-context es c q
  call_back-context (assert_failed ∷ es) c q = call_back-context es c (complete assertion_failed q)

  pub on_context-stream :
      (f : Context H → Context H) (q : MessageQueue H Q S) → (on_context f q).stream ≡ q.stream
  unfolding on_context
  on_context-stream f q = call_back-stream (drop (length q.context.trace) (f q.context).trace) _

  -- A call into the context that adds these effects to its trace.
  pub on_context_lem :
      (f : Context H → Context H) (q : MessageQueue H Q S) (es : List Effect)
      → (f q.context).trace ≡ q.context.trace ++ es
      → on_context f q ≡ record (call_back es q) { context = f q.context }
  unfolding on_context
  on_context_lem f q es e =
      ap (λ t. call_back (drop (length q.context.trace) t) (record q { context = f q.context })) e
      ∙ ap (λ t. call_back t (record q { context = f q.context })) (drop-prefix q.context.trace es)
      ∙ call_back-context es (f q.context) q

  pub on_context-write_buffer :
      (f : Context H → Context H) (q : MessageQueue H Q S) (es : List Effect)
      → (f q.context).trace ≡ q.context.trace ++ es
      → (on_context f q).write_buffer ≡ q.write_buffer ++ written es
  on_context-write_buffer f q es e =
      ap (λ r. r.write_buffer) (on_context_lem f q es e) ∙ call_back-write_buffer es q
