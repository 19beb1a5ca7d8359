-- ===== src/Queue/Receives.antt =====
-- `asyncReceive` and `deliverCallback`: which receive gets which message.
use libsfp.Base.{
  ℕ, zero, suc, ◌≤◌, ◌<◌, ◌⊎◌, inl, inr, List, [], ◌∷◌, ◌++◌, ◌≡◌, refl, sym, ap, ◌∙◌, subst, Bool,
  true, false, not, ◌&&◌, if◌then◌else◌, length, arith, tail, append-nil, append_assoc, take, ◌==◌,
  leb,
}
use libsfp.State.{Packet, RingBuffer}
use libsfp.Errors.{ErrorCode, no_error, network_down, message_size, is_error}
use libsfp.Queue.{
  ReceiveQueue, ByteStream, Consumer, receive, called_first, called_with, stored_after,
  waiting_after, Completion, received, assertion_failed, MessageQueue,
}
use libsfp.Queue.Pumps.{
  complete, consumed, consumed_all, produce_received, consume_received, deliver_callback,
  get_read_pump_error,
}
use libsfp.Queue.Operations.{assert_complete, async_receive}

-- A message that the context delivers, or a call of `asyncReceive`.
pub data Traffic : Type 0 where
  arrives : Packet → Traffic
  asks : (size handler : ℕ) → Traffic

abbrev pub arrivals : List Traffic → List Packet
arrivals [] = []
arrivals (arrives p ∷ ts) = p ∷ arrivals ts
arrivals (asks size handler ∷ ts) = arrivals ts

abbrev pub requests : List Traffic → List (ℕ × ℕ)
requests [] = []
requests (arrives p ∷ ts) = requests ts
requests (asks size handler ∷ ts) = (size, handler) ∷ requests ts

-- What a receive sees of a message: all of it, or as much as its destination has room for and an error.
abbrev pub read_into : ℕ × ℕ → Packet → Completion
read_into (size, handler) p =
    if leb (length p) size
    then received handler no_error p
    else received handler message_size (take size p)

-- The first request gets the first message, and so on.
abbrev pub matched : List (ℕ × ℕ) → List Packet → List Completion
matched [] ps = []
matched (r ∷ rs) [] = []
matched (r ∷ rs) (p ∷ ps) = read_into r p ∷ matched rs ps

abbrev pub as_consumers : List (ℕ × ℕ) → List Consumer
as_consumers [] = []
as_consumers ((size, handler) ∷ rs) = receive size handler ∷ as_consumers rs

abbrev pub as_stored : List Packet → List (ErrorCode × Packet)
as_stored [] = []
as_stored (p ∷ ps) = (no_error, p) ∷ as_stored ps

as_consumers-append :
    (rs : List (ℕ × ℕ)) (size handler : ℕ)
    → as_consumers rs ++ receive size handler ∷ [] ≡ as_consumers (rs ++ (size, handler) ∷ [])
as_consumers-append [] size handler = refl
as_consumers-append ((n, h) ∷ rs) size handler =
    ap (λ t. receive n h ∷ t) (as_consumers-append rs size handler)

as_stored-append :
    (ps : List Packet) (p : Packet) → as_stored ps ++ (no_error, p) ∷ [] ≡ as_stored (ps ++ p ∷ [])
as_stored-append [] p = refl
as_stored-append (q ∷ ps) p = ap (λ t. (no_error, q) ∷ t) (as_stored-append ps p)

take_all : (n : ℕ) (p : Packet) → length p ≤ n → take n p ≡ p
take_all zero [] le = refl
take_all zero (x ∷ p) le = absurd (omega (arith, le))
take_all (suc n) [] le = refl
take_all (suc n) (x ∷ p) le = ap (λ t. x ∷ t) (take_all n p (omega (arith, le)))

length-take-le : (n : ℕ) (p : Packet) → length (take n p) ≤ n
length-take-le zero p = omega arith
length-take-le (suc n) [] = omega arith
length-take-le (suc n) (x ∷ p) = omega (arith, length-take-le n p)

fits_le : (n : ℕ) (p : Packet) → leb (length p) n ≡ true → length p ≤ n
fits_le n p e = ground arith

exceeds_lt : (n : ℕ) (p : Packet) → leb (length p) n ≡ false → n < length p
exceeds_lt n p e = ground arith

consumed-receive :
    (size handler : ℕ) (p : Packet)
    → consumed (receive size handler, no_error, p) ≡ read_into (size, handler) p ∷ []
unfolding consumed is_error
consumed-receive size handler p = by_room (leb (length p) size) refl
  where
    copied : Completion
    copied =
        received handler (if length (take size p) == length p then no_error else message_size)
          (take size p)

    by_room :
        (fits : Bool)
        → leb (length p) size ≡ fits
        → copied ∷ []
          ≡ (if fits
              then received handler no_error p
              else received handler message_size (take size p))
            ∷ []
    by_room true e =
        let same : (length (take size p) == length p) ≡ true =
          grind (arith, ap length (take_all size p (fits_le size p e))) in
        ap (λ b. received handler (if b then no_error else message_size) (take size p) ∷ []) same
        ∙ ap (λ t. received handler no_error t ∷ []) (take_all size p (fits_le size p e))
    by_room false e =
        let longer = exceeds_lt size p e in
        let shorter : (length (take size p) == length p) ≡ false =
          grind (arith, length-take-le size p) in
        ap (λ b. received handler (if b then no_error else message_size) (take size p) ∷ []) shorter

two_sided :
    {r : ℕ × ℕ} {rs : List (ℕ × ℕ)} {p : Packet} {ps : List Packet}
    → (r ∷ rs ≡ []) ⊎ (p ∷ ps ≡ [])
    → ⊥
two_sided (inl e) = absurd (omega (arith, ap length e))
two_sided (inr e) = absurd (omega (arith, ap length e))

module _ {H Q S : Type 0} ⦃rb : RingBuffer H⦄ ⦃rq : ReceiveQueue Q⦄ ⦃bs : ByteStream S⦄ where
  -- A queue whose handshake is complete, with no error of the read pump and an open stream.
  pub record IsReady (q : MessageQueue H Q S) : Type 0 where
    pub completed : q.handshake_complete ≡ true
    pub no_pump_error : q.read_pump_error ≡ no_error
    pub open_stream : bs.is_open q.stream ≡ true

  -- The deliveries of the context and the calls of `asyncReceive`, in order.
  unfoldable pub serve : List Traffic → MessageQueue H Q S → MessageQueue H Q S
  serve [] q = q
  serve (arrives p ∷ ts) q = serve ts (deliver_callback p q)
  serve (asks size handler ∷ ts) q = serve ts (async_receive size handler q)

  pub get_error-ready :
      (q : MessageQueue H Q S)
      → IsReady q
      → get_read_pump_error q ≡ (record q { read_pump_error = no_error }, no_error)
  unfolding get_read_pump_error is_error
  get_error-ready q r =
      ap
        (λ e. (
          record q { read_pump_error = no_error },
          if not (is_error e) && not (bs.is_open q.stream) then network_down else e,
        ))
        r.no_pump_error
      ∙ ap
          (λ b. (record q { read_pump_error = no_error }, if not b then network_down else no_error))
          r.open_stream

  async_receive-ready :
      (size handler : ℕ) (q : MessageQueue H Q S)
      → IsReady q
      → async_receive size handler q
        ≡ consume_received (receive size handler) (record q { read_pump_error = no_error })
  unfolding async_receive assert_complete consume_received is_error
  async_receive-ready size handler q r =
      let go : MessageQueue H Q S × ErrorCode → MessageQueue H Q S = λ p.
        if is_error p.1
        then complete (received handler p.1 []) p.0
        else consume_received (receive size handler) p.0 in
      ap (λ b. go (get_read_pump_error (if b then q else complete assertion_failed q))) r.completed
      ∙ ap go (get_error-ready q r)

  -- The requests that wait, the messages that are stored, and what the user has seen.
  pub record Sides (rs : List (ℕ × ℕ)) (ps : List Packet) (done : List Completion)
      (q : MessageQueue H Q S) : Type 0 where
    pub ready : IsReady q
    pub waits : rq.waiting q.receive_queue ≡ as_consumers rs
    pub stores : rq.stored q.receive_queue ≡ as_stored ps
    pub seen : q.completions ≡ done

  arrive-stored :
      (p : Packet) {ps : List Packet} {done : List Completion} (q : MessageQueue H Q S)
      → Sides [] ps done q
      → Sides [] (ps ++ p ∷ []) done (deliver_callback p q)
  unfolding deliver_callback produce_received consumed_all
  arrive-stored p {ps} {done} q s =
      let b = q.receive_queue in
      record {
        ready = record {
          completed = s.ready.completed;
          no_pump_error = s.ready.no_pump_error;
          open_stream = s.ready.open_stream;
        };
        waits = rq.waiting-produce no_error p b ∙ ap tail s.waits;
        stores =
            rq.stored-produce no_error p b
            ∙ ap (λ w. stored_after w (rq.stored b) (no_error, p)) s.waits
            ∙ ap (λ t. t ++ (no_error, p) ∷ []) s.stores
            ∙ as_stored-append ps p;
        seen =
            ap (λ calls. q.completions ++ consumed_all calls)
              (rq.produce_calls no_error p b ∙ ap (λ w. called_first w no_error p) s.waits)
            ∙ append-nil q.completions
            ∙ s.seen;
      }

  arrive-called :
      (p : Packet) {size handler : ℕ} {rs : List (ℕ × ℕ)} {done : List Completion}
      (q : MessageQueue H Q S)
      → Sides ((size, handler) ∷ rs) [] done q
      → Sides rs [] (done ++ read_into (size, handler) p ∷ []) (deliver_callback p q)
  unfolding deliver_callback produce_received consumed_all
  arrive-called p {size} {handler} {done = done} q s =
      let b = q.receive_queue in
      record {
        ready = record {
          completed = s.ready.completed;
          no_pump_error = s.ready.no_pump_error;
          open_stream = s.ready.open_stream;
        };
        waits = rq.waiting-produce no_error p b ∙ ap tail s.waits;
        stores =
            rq.stored-produce no_error p b
            ∙ ap (λ w. stored_after w (rq.stored b) (no_error, p)) s.waits
            ∙ s.stores;
        seen =
            ap (λ calls. q.completions ++ consumed_all calls)
              (rq.produce_calls no_error p b ∙ ap (λ w. called_first w no_error p) s.waits)
            ∙ ap (λ t. q.completions ++ t)
                (append-nil (consumed (receive size handler, no_error, p))
                  ∙ consumed-receive size handler p)
            ∙ ap (λ t. t ++ read_into (size, handler) p ∷ []) s.seen;
      }

  ask-waits :
      (size handler : ℕ) {rs : List (ℕ × ℕ)} {done : List Completion} (q : MessageQueue H Q S)
      → Sides rs [] done q
      → Sides (rs ++ (size, handler) ∷ []) [] done (async_receive size handler q)
  unfolding consume_received consumed_all
  ask-waits size handler {rs} {done} q s =
      let b = q.receive_queue in
      subst (λ r. Sides (rs ++ (size, handler) ∷ []) [] done r)
        (sym (async_receive-ready size handler q s.ready))
        (record {
          ready = record {
            completed = s.ready.completed;
            no_pump_error = refl;
            open_stream = s.ready.open_stream;
          };
          waits =
              rq.waiting-consume (receive size handler) b
              ∙ ap (λ t. waiting_after t (rq.waiting b) (receive size handler)) s.stores
              ∙ ap (λ t. t ++ receive size handler ∷ []) s.waits
              ∙ as_consumers-append rs size handler;
          stores = rq.stored-consume (receive size handler) b ∙ ap tail s.stores;
          seen =
              ap (λ calls. q.completions ++ consumed_all calls)
                (rq.consume_calls (receive size handler) b
                  ∙ ap (called_with (receive size handler)) s.stores)
              ∙ append-nil q.completions
              ∙ s.seen;
        })

  ask-served :
      (size handler : ℕ) {p : Packet} {ps : List Packet} {done : List Completion}
      (q : MessageQueue H Q S)
      → Sides [] (p ∷ ps) done q
      → Sides [] ps (done ++ read_into (size, handler) p ∷ []) (async_receive size handler q)
  unfolding consume_received consumed_all
  ask-served size handler {p} {ps} {done} q s =
      let b = q.receive_queue in
      subst (λ r. Sides [] ps (done ++ read_into (size, handler) p ∷ []) r)
        (sym (async_receive-ready size handler q s.ready))
        (record {
          ready = record {
            completed = s.ready.completed;
            no_pump_error = refl;
            open_stream = s.ready.open_stream;
          };
          waits =
              rq.waiting-consume (receive size handler) b
              ∙ ap (λ t. waiting_after t (rq.waiting b) (receive size handler)) s.stores
              ∙ s.waits;
          stores = rq.stored-consume (receive size handler) b ∙ ap tail s.stores;
          seen =
              ap (λ calls. q.completions ++ consumed_all calls)
                (rq.consume_calls (receive size handler) b
                  ∙ ap (called_with (receive size handler)) s.stores)
              ∙ ap (λ t. q.completions ++ t)
                  (append-nil (consumed (receive size handler, no_error, p))
                    ∙ consumed-receive size handler p)
              ∙ ap (λ t. t ++ read_into (size, handler) p ∷ []) s.seen;
        })

  pub serve-Sides :
      (ts : List Traffic) (rs : List (ℕ × ℕ)) (ps : List Packet) (done : List Completion)
      → (q : MessageQueue H Q S) → (rs ≡ []) ⊎ (ps ≡ [])
      → Sides rs ps done q
      → (serve ts q).completions ≡ done ++ matched (rs ++ requests ts) (ps ++ arrivals ts)
  unfolding serve
  serve-Sides [] [] ps done q one s = s.seen ∙ sym (append-nil done)
  serve-Sides [] (r ∷ rs) [] done q one s = s.seen ∙ sym (append-nil done)
  serve-Sides (arrives p ∷ ts) [] ps done q one s =
      serve-Sides ts [] (ps ++ p ∷ []) done _ (inl refl) (arrive-stored p q s)
      ∙ ap (λ t. done ++ matched (requests ts) t) (append_assoc ps (p ∷ []) (arrivals ts))
  serve-Sides (arrives p ∷ ts) (r ∷ rs) [] done q one s =
      serve-Sides ts rs [] (done ++ read_into r p ∷ []) _ (inr refl) (arrive-called p q s)
      ∙ append_assoc done (read_into r p ∷ []) (matched (rs ++ requests ts) (arrivals ts))
  serve-Sides (asks size handler ∷ ts) rs [] done q one s =
      serve-Sides ts (rs ++ (size, handler) ∷ []) [] done _ (inr refl) (ask-waits size handler q s)
      ∙ ap (λ t. done ++ matched t (arrivals ts))
          (append_assoc rs ((size, handler) ∷ []) (requests ts))
  serve-Sides (asks size handler ∷ ts) [] (p ∷ ps) done q one s =
      serve-Sides ts [] ps (done ++ read_into (size, handler) p ∷ []) _ (inl refl)
        (ask-served size handler q s)
      ∙ append_assoc done (read_into (size, handler) p ∷ [])
          (matched (requests ts) (ps ++ arrivals ts))
  serve-Sides ts (r ∷ rs) (p ∷ ps) done q one s = absurd (two_sided one)

  -- When the handshake is complete, the stream is open, the read pump has no error and the receive queue is
  -- empty, then after any deliveries and calls of `asyncReceive`, in whatever order they interleave, the
  -- calls of the handlers of receives are those of the first with the first message, the second with
  -- the second, and so on, as far as there are both; each handler gets the whole message and no
  -- error, or what fits into its destination and `message_size`.
  pub serve-matched :
      (ts : List Traffic) (q : MessageQueue H Q S)
      → IsReady q
      → rq.waiting q.receive_queue ≡ []
      → rq.stored q.receive_queue ≡ []
      → (serve ts q).completions ≡ q.completions ++ matched (requests ts) (arrivals ts)
  serve-matched ts q ready waits stores =
      serve-Sides ts [] [] q.completions q (inl refl)
        (record { ready = ready; waits = waits; stores = stores; seen = refl })
