-- ===== src/Safety/Outcome.antt =====
-- What a handler makes of the connection and of the frame in the packet buffer, for every frame type,
-- sequence number and state, from any context.
use libsfp.Base.{
  ℕ, zero, suc, List, [], ◌∷◌, ◌++◌, ◌≡◌, refl, sym, ap, subst, ◌∙◌, Bool, true, false, ◌&&◌, ◌||◌,
  not, append-nil, if◌then◌else◌, is_some, ◌==◌,
}
use libsfp.State.{
  Context, FrameType, usr, rtx, nak, syn, ConnectState, disconnected, sent_syn0, sent_syn1,
  connected, assert_failed, Effect, delivered, emit, assert, initial_seq,
}
use libsfp.Frame.{same_type, next_seq, get_frame_type, get_frame_seq}
use libsfp.Transmit.{with_lock, transmit_nak, transmit_dis, transmit_syn0, transmit_syn1}
use libsfp.Transmit.Locked.{lock_calls, unlock_calls, calling, with_lock_lem, with_lock-nothing}
use libsfp.Handle.{accept_usr, usr_by_state}
use libsfp.Api.{state_is_connected}
use libsfp.Trace.{
  Grows, Grows-refl, Grows-trans, deliveries, deliveries-append, deliveries-lock_calls,
  deliveries-unlock_calls,
}
use libsfp.Safety.Keeps.{
  Keeps, Keeps-refl, Keeps-if, transmit_control-Keeps, with_lock-Keeps, transmit_dis-Keeps,
  transmit_syn0-Keeps, transmit_syn1-Keeps,
}

-- The state of the connection after a frame of this type with this sequence number.
abbrev pub next_state : FrameType → ℕ → ConnectState → ConnectState
next_state syn zero s = sent_syn1
next_state syn (suc zero) disconnected = disconnected
next_state syn (suc zero) _ = connected
next_state syn (suc (suc zero)) disconnected = disconnected
next_state syn (suc (suc zero)) sent_syn0 = sent_syn0
next_state syn (suc (suc zero)) _ = connected
next_state syn (suc (suc (suc zero))) s = disconnected
next_state _ n s = s

-- Whether a frame of this type carries a packet that is taken: a user frame, on a connected link,
-- with the expected sequence number.
abbrev pub is_taken : FrameType → ℕ → ConnectState → ℕ → Bool
is_taken t n s expected =
    (same_type usr t || same_type rtx t) && (state_is_connected s && (n == expected))

-- The sequence number that is expected next.
abbrev pub next_expected : FrameType → ℕ → ConnectState → ℕ → ℕ
next_expected syn zero s expected = initial_seq
next_expected t n s expected = if is_taken t n s expected then next_seq expected else expected

module _ {H : Type 0} where
  -- The context and the result of a handler, from `c`: the state of the connection, whether the packet
  -- was taken, and the sequence number expected next.
  pub record Outcome (c : Context H) (s : ConnectState) (taken : Bool) (seq : ℕ)
      (r : Context H × Bool) : Type 0 where
    pub state_is : r.0.connect_state ≡ s
    pub delivers :
        deliveries r.0.trace
        ≡ deliveries c.trace ++ (if taken && is_some c.rx.deliver then c.rx.packet ∷ [] else [])
    pub result_is : r.1 ≡ taken
    pub seq_is : r.0.rx.seq ≡ seq
    pub packet_is : taken ≡ true → r.0.rx.packet ≡ c.rx.packet
    pub grows : Grows c.trace r.0.trace

  pub Keeps-Outcome :
      {c d : Context H} → Keeps c d → Outcome c c.connect_state false c.rx.seq (d, false)
  Keeps-Outcome k = record {
    state_is = k.same_state;
    delivers = k.same_deliveries ∙ sym (append-nil _);
    result_is = refl;
    seq_is = ap (λ r. r.seq) k.same_rx;
    packet_is = λ e. cc;
    grows = k.grows;
  }

  accept_usr-Outcome :
      (c : Context H)
      → let same = get_frame_seq c.rx.header == c.rx.seq in
        Outcome c c.connect_state same (if same then next_seq c.rx.seq else c.rx.seq) (accept_usr c)
  unfolding accept_usr
  accept_usr-Outcome c = by_seq (get_frame_seq c.rx.header == c.rx.seq)
    where
      answered : Context H
      answered =
          if same_type usr (get_frame_type c.rx.header)
          then with_lock (transmit_nak c.rx.seq) c
          else c

      answered-Keeps : Keeps c answered
      answered-Keeps =
          Keeps-if (same_type usr (get_frame_type c.rx.header))
            (with_lock-Keeps (transmit_nak c.rx.seq) c
              (λ d. unfold transmit_nak in transmit_control-Keeps nak c.rx.seq d))
            (Keeps-refl c)

      handed : Bool → Context H
      handed b = if b then emit (delivered c.rx.deliver c.rx.deliver_data c.rx.packet) c else c

      one :
          deliveries (delivered c.rx.deliver c.rx.deliver_data c.rx.packet ∷ []) ≡ c.rx.packet ∷ []
      one = unfold deliveries in refl

      took :
          (b : Bool)
          → b ≡ is_some c.rx.deliver
          → Outcome c c.connect_state true (next_seq c.rx.seq) (
            record (handed b) { rx = record (handed b).rx { seq = next_seq (handed b).rx.seq } },
            true,
          )
      took true e = record {
        state_is = refl;
        delivers =
            deliveries-append c.trace _
            ∙ ap (λ x. deliveries c.trace ++ x) one
            ∙ ap (λ b. deliveries c.trace ++ (if b then c.rx.packet ∷ [] else [])) e;
        result_is = refl;
        seq_is = refl;
        packet_is = λ e. refl;
        grows = (delivered c.rx.deliver c.rx.deliver_data c.rx.packet ∷ [], refl);
      }
      took false e = record {
        state_is = refl;
        delivers =
            sym (append-nil _)
            ∙ ap (λ b. deliveries c.trace ++ (if b then c.rx.packet ∷ [] else [])) e;
        result_is = refl;
        seq_is = refl;
        packet_is = λ e. refl;
        grows = Grows-refl c.trace;
      }

      by_seq :
          (same : Bool)
          → Outcome c c.connect_state same (if same then next_seq c.rx.seq else c.rx.seq) (
              if not same then (answered, false) else (
                record (handed (is_some c.rx.deliver)) {
                  rx = record (handed (is_some c.rx.deliver)).rx {
                    seq = next_seq (handed (is_some c.rx.deliver)).rx.seq;
                  };
                },
                true,
              ))
      by_seq true = took (is_some c.rx.deliver) refl
      by_seq false = Keeps-Outcome answered-Keeps

  -- Calls that hand nothing over do not count.
  pub Outcome-calling :
      {c : Context H} {s : ConnectState} {taken : Bool} {n : ℕ} {r : Context H × Bool}
      (calls : List Effect)
      → deliveries calls ≡ []
      → Outcome (calling c calls) s taken n r
      → Outcome c s taken n r
  Outcome-calling {c} {s} {taken} calls e o = record {
    state_is = o.state_is;
    delivers =
        o.delivers
        ∙ ap (λ t. t ++ (if taken && is_some c.rx.deliver then c.rx.packet ∷ [] else []))
            (deliveries-append c.trace calls ∙ ap (λ t. deliveries c.trace ++ t) e ∙ append-nil _);
    result_is = o.result_is;
    seq_is = o.seq_is;
    packet_is = o.packet_is;
    grows = Grows-trans c.trace (calls, refl) o.grows;
  }

  -- The body of a lock whose result is not looked at.
  pub with_lock-Outcome :
      (body : Context H → Context H) (c : Context H) {s : ConnectState} {n : ℕ}
      → Outcome (calling c (lock_calls c)) s false n (body (calling c (lock_calls c)), false)
      → Outcome c s false n (with_lock body c, false)
  with_lock-Outcome body c inside =
      let o = Outcome-calling (lock_calls c) (deliveries-lock_calls c) inside in
      let e = with_lock_lem body c in
      record {
        state_is = ap (λ x. x.connect_state) e ∙ o.state_is;
        delivers =
            ap (λ x. deliveries x.trace) e
            ∙ deliveries-append _ (unlock_calls (body (calling c (lock_calls c))))
            ∙ ap (λ t. deliveries (body (calling c (lock_calls c))).trace ++ t)
                (deliveries-unlock_calls _)
            ∙ append-nil _
            ∙ o.delivers;
        result_is = refl;
        seq_is = ap (λ x. x.rx.seq) e ∙ o.seq_is;
        packet_is = λ e. cc;
        grows =
            Grows-trans c.trace o.grows
              (unlock_calls (body (calling c (lock_calls c))), ap (λ x. x.trace) e);
      }

  pub usr_by_state-Outcome :
      (s : ConnectState) (c : Context H)
      → let taken = state_is_connected s && (get_frame_seq c.rx.header == c.rx.seq) in
        Outcome c c.connect_state taken
          (if taken then next_seq c.rx.seq else c.rx.seq)
          (usr_by_state s c)
  unfolding usr_by_state state_is_connected
  usr_by_state-Outcome disconnected c =
      Keeps-Outcome (with_lock-Keeps transmit_dis c transmit_dis-Keeps)
  usr_by_state-Outcome sent_syn0 c =
      Keeps-Outcome (with_lock-Keeps transmit_syn0 c transmit_syn0-Keeps)
  usr_by_state-Outcome sent_syn1 c =
      Keeps-Outcome (with_lock-Keeps transmit_syn1 c transmit_syn1-Keeps)
  usr_by_state-Outcome connected c =
      subst (Outcome c _ _ _) (sym (ap accept_usr (with_lock-nothing c))) (
        Outcome-calling (lock_calls c ++ unlock_calls c) none_delivered
          (accept_usr-Outcome (calling c (lock_calls c ++ unlock_calls c))))
    where
      none_delivered : deliveries (lock_calls c ++ unlock_calls c) ≡ []
      none_delivered =
          deliveries-append (lock_calls c) (unlock_calls c)
          ∙ ap (λ t. t ++ deliveries (unlock_calls c)) (deliveries-lock_calls c)
          ∙ deliveries-unlock_calls c

  -- A failed assertion is only recorded.
  pub asserted-Outcome :
      (b : Bool) (c : Context H) {s : ConnectState} {taken : Bool} {n : ℕ} {r : Context H × Bool}
      → Outcome (assert b c) s taken n r
      → Outcome c s taken n r
  asserted-Outcome true c o = o
  asserted-Outcome false c o = Outcome-calling (assert_failed ∷ []) (unfold deliveries in refl) o
