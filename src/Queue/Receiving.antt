-- ===== src/Queue/Receiving.antt =====
-- `handleRead` up to the handlers of `asyncReceive`: the octets of user frames that were read.
use libsfp.Base.{
  ℕ, List, [], ◌∷◌, ◌++◌, ◌≡◌, refl, sym, ap, ◌∙◌, Bool, true, false, if◌then◌else◌, append-nil,
  append_assoc, All, none,
}
use libsfp.State.{Context, Packet, RingBuffer, Effect, FrameType, locked, unlocked, delivered}
use libsfp.Frame.{make_header, encode_frame}
use libsfp.Receive.{deliver_octet, deliver_octets}
use libsfp.History.Resend.{frames_from}
use libsfp.Transmit.{is_transmitter_lockable}
use libsfp.Transmit.Locked.{lock_calls, unlock_calls}
use libsfp.Link.Accept.{IsUser, delivery_calls}
use libsfp.Link.Delivery.{
  IsListening, FitsFrame, received, deliver_octets-expected, received-IsListening,
}
use libsfp.Safety.Octet.{deliver_octet-Result}
use libsfp.Node.{input}
use libsfp.Node.Slots.{input_lem}
use libsfp.Queue.{ReceiveQueue, ByteStream, MessageQueue}
use libsfp.Trace.{same_suffix}
use libsfp.Queue.Pumps.{
  produce_received, call_back, on_context, deliver_callback, deliver_asserted, deliver_read,
}
use libsfp.Queue.Callbacks.{on_context_lem, call_back-append, call_back-context}
use libsfp.Queue.Receives.{arrives, Traffic, serve}

-- The messages, delivered one after the other.
abbrev pub arrive_all : List Packet → List Traffic
arrive_all [] = []
arrive_all (p ∷ ps) = arrives p ∷ arrive_all ps

module _ {H : Type 0} ⦃rb : RingBuffer H⦄ where
  deliver_asserted_lem :
      (octet : ℕ) (c : Context H) → deliver_asserted octet c ≡ (deliver_octet none octet c).0
  deliver_asserted_lem octet c = unfold deliver_asserted input in input_lem octet c

abbrev pub with_context : {H Q S : Type 0} → Context H → MessageQueue H Q S → MessageQueue H Q S
with_context c q = record q { context = c }

module _ {H Q S : Type 0} ⦃rb : RingBuffer H⦄ ⦃rq : ReceiveQueue Q⦄ ⦃bs : ByteStream S⦄ where
  -- What the loop of `handleRead` does: the context takes the octets, and its callbacks are called.
  abbrev Reads : List ℕ → MessageQueue H Q S → List Effect → Type 0
  Reads octets q es =
      let d = deliver_octets octets q.context in
      (d.trace ≡ q.context.trace ++ es)
      × (deliver_read octets q ≡ record (call_back es q) { context = d })

  deliver_read-Reads :
      (octets : List ℕ) (q : MessageQueue H Q S) → (es : List Effect) × Reads octets q es
  unfolding deliver_read deliver_octets call_back
  deliver_read-Reads [] q = ([], (sym (append-nil q.context.trace), refl))
  deliver_read-Reads (octet ∷ octets) q =
      let c = q.context in
      let (es, grown) = (deliver_octet-Result none octet q.context).grows in
      let (fs, (more, rest)) =
        deliver_read-Reads octets
          (record (call_back es q) { context = (deliver_octet none octet q.context).0 }) in
      (
        es ++ fs,
        (
          more ∙ ap (λ t. t ++ fs) grown ∙ append_assoc q.context.trace es fs,
          ap (deliver_read octets) (
                on_context_lem (deliver_asserted octet) q es
                  (ap (λ d. d.trace) (deliver_asserted_lem octet c) ∙ grown)
                ∙ ap (λ d. with_context d (call_back es q)) (deliver_asserted_lem octet c))
              ∙ rest
              ∙ ap (with_context (deliver_octets octets (deliver_octet none octet c).0)) (
                  call_back-context fs (deliver_octet none octet c).0 (call_back es q)
                  ∙ ap (with_context (deliver_octet none octet c).0)
                      (sym (call_back-append es fs q))),
        ),
      )

  call_back-delivery_calls :
      (c : Context H) (p : Packet) (q : MessageQueue H Q S)
      → call_back (delivery_calls c p) q ≡ deliver_callback p q
  unfolding call_back lock_calls unlock_calls
  call_back-delivery_calls c p q = by_lock (is_transmitter_lockable c)
    where
      by_lock :
          (b : Bool)
          → call_back
              ((if b then locked c.tx.lock c.tx.lock_data ∷ [] else [])
                ++ ((if b then unlocked c.tx.unlock c.tx.unlock_data ∷ [] else [])
                    ++ delivered c.rx.deliver c.rx.deliver_data p ∷ []))
              q
            ≡ deliver_callback p q
      by_lock true = refl
      by_lock false = refl

  deliver_read-append :
      (xs ys : List ℕ) (q : MessageQueue H Q S)
      → deliver_read (xs ++ ys) q ≡ deliver_read ys (deliver_read xs q)
  unfolding deliver_read
  deliver_read-append [] ys q = refl
  deliver_read-append (x ∷ xs) ys q = deliver_read-append xs ys (on_context (deliver_asserted x) q)

  deliver_read-frame :
      (t : FrameType) (p : Packet) (q : MessageQueue H Q S)
      → IsUser t
      → IsListening q.context
      → FitsFrame p
      → let header = make_header t q.context.rx.seq in
        deliver_read (encode_frame header p) q
        ≡ record (deliver_callback p q) { context = received q.context header p }
  deliver_read-frame t p q user on fits =
      let header = make_header t q.context.rx.seq in
      let c = q.context in
      let (es, (grown, reads)) = deliver_read-Reads (encode_frame header p) q in
      let becomes = deliver_octets-expected c t p user on fits in
      let same =
        same_suffix c.trace es (delivery_calls c p) (sym grown ∙ ap (λ d. d.trace) becomes) in
      reads
      ∙ ap (λ d. with_context d (call_back es q)) becomes
      ∙ ap (with_context (received c header p))
          (ap (λ e. call_back e q) same ∙ call_back-delivery_calls c p q)

  serve-context :
      (ps : List Packet) (c : Context H) (q : MessageQueue H Q S)
      → serve (arrive_all ps) (with_context c q) ≡ with_context c (serve (arrive_all ps) q)
  unfolding serve deliver_callback produce_received
  serve-context [] c q = refl
  serve-context (p ∷ ps) c q = serve-context ps c (deliver_callback p q)

  -- User frames from the expected one on: the queue is as after the deliveries of their payloads, but for
  -- the context.
  pub deliver_read-frames :
      (t : FrameType) (ps : List Packet) (q : MessageQueue H Q S)
      → IsUser t
      → IsListening q.context
      → All FitsFrame ps
      → (c : Context H) × (deliver_read (frames_from t q.context.rx.seq ps) q
          ≡ record (serve (arrive_all ps) q) { context = c })
  unfolding frames_from serve deliver_read
  deliver_read-frames t [] q user on fits = (q.context, refl)
  deliver_read-frames t (p ∷ ps) q user on fits =
      let header = make_header t q.context.rx.seq in
      let after = record (deliver_callback p q) { context = received q.context header p } in
      let (c, rest) =
        deliver_read-frames t ps after user (received-IsListening q.context header p on) fits.1 in
      (
        c,
        deliver_read-append (encode_frame header p) (frames_from t after.context.rx.seq ps) q
            ∙ ap (deliver_read (frames_from t after.context.rx.seq ps))
                (deliver_read-frame t p q user on fits.0)
            ∙ rest
            ∙ ap (with_context c)
                (serve-context ps (received q.context header p) (deliver_callback p q)),
      )
