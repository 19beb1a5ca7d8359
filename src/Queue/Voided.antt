-- ===== src/Queue/Voided.antt =====
-- `voidReceives` and its two loops.
use libsfp.Base.{
  ℕ, zero, suc, ◌≤◌, List, [], ◌∷◌, ◌++◌, ◌≡◌, refl, sym, ap, ◌∙◌, subst, true, if◌then◌else◌,
  length, arith, tail, append-nil, append_assoc, take, ◌==◌,
}
use libsfp.State.{Packet}
use libsfp.Errors.{ErrorCode, no_error, message_size, is_error}
use libsfp.Queue.{
  ReceiveQueue, Consumer, receive, received, discard, is_negative, is_positive, magnitude, depth_of,
  called_first, called_with, stored_after, waiting_after, Call, Completion, MessageQueue,
}
use libsfp.Queue.Pumps.{
  consumed, consumed_all, produce_received, consume_received, void_waiting, discard_stored,
  void_receives,
}

-- The calls of these consumers with an error code and no octets.
abbrev pub voided_calls : ErrorCode → List Consumer → List Call
voided_calls ec [] = []
voided_calls ec (c ∷ cs) = (c, ec, []) ∷ voided_calls ec cs

-- What the receives among these see when they are called with an error code and no octets.
abbrev pub interrupted : ErrorCode → List Consumer → List Completion
interrupted ec [] = []
interrupted ec (receive size handler ∷ cs) = received handler ec [] ∷ interrupted ec cs
interrupted ec (discard ∷ cs) = interrupted ec cs

abbrev empty : List ℕ
empty = []

voided_calls_lem :
    (ec : ErrorCode) (cs : List Consumer)
    → is_error ec ≡ true
    → consumed_all (voided_calls ec cs) ≡ interrupted ec cs
unfolding consumed_all consumed
voided_calls_lem ec [] bad = refl
voided_calls_lem ec (receive size handler ∷ cs) bad =
    ap
      (λ b.
        (if b
          then received handler ec [] ∷ []
          else received handler
              (if length (take size empty) == length empty then no_error else message_size)
              (take size empty)
            ∷ [])
        ++ consumed_all (voided_calls ec cs))
      bad
    ∙ ap (λ t. received handler ec [] ∷ t) (voided_calls_lem ec cs bad)
voided_calls_lem ec (discard ∷ cs) bad = voided_calls_lem ec cs bad

depth-waiting : (n m : ℕ) → m ≤ magnitude (depth_of n m)
depth-waiting n zero = omega arith
depth-waiting n (suc m) = omega arith

module _ {Q : Type 0} ⦃rq : ReceiveQueue Q⦄ where
  depth_of-waiting :
      (b : Q) (waiting : List Consumer)
      → rq.waiting b ≡ waiting
      → rq.depth b ≡ depth_of (length (rq.stored b)) (length waiting)
  depth_of-waiting b waiting e =
      rq.depth_lem b ∙ ap (λ w. depth_of (length (rq.stored b)) (length w)) e

module _ {H Q S : Type 0} ⦃rq : ReceiveQueue Q⦄ where
  -- What a loop has come to: its queue's sides, and the completions that it has added.
  abbrev Became :
      (q r : MessageQueue H Q S)
      → List (ErrorCode × Packet)
      → List Consumer
      → List Completion
      → Type 0
  Became q r stored waiting added =
      (rq.stored r.receive_queue ≡ stored)
      × (rq.waiting r.receive_queue ≡ waiting)
      × (r.completions ≡ q.completions ++ added)

  void_waiting-empty :
      (fuel : ℕ) (ec : ErrorCode) (q : MessageQueue H Q S) (waiting : List Consumer)
      → rq.waiting q.receive_queue ≡ waiting
      → length waiting ≤ fuel
      → Became q
          (void_waiting fuel ec q)
          (rq.stored q.receive_queue)
          []
          (consumed_all (voided_calls ec waiting))
  unfolding void_waiting consumed_all produce_received
  void_waiting-empty zero ec q [] e le = (refl, e, sym (append-nil q.completions))
  void_waiting-empty zero ec q (c ∷ cs) e le = absurd (omega (arith, le))
  void_waiting-empty (suc fuel) ec q [] e le =
      subst
        (λ b.
          Became q (if b then void_waiting fuel ec (produce_received ec [] q) else q)
            (rq.stored q.receive_queue) [] [])
        (sym (ap is_negative (depth_of-waiting q.receive_queue [] e)))
        (refl, e, sym (append-nil q.completions))
  void_waiting-empty (suc fuel) ec q (c ∷ cs) e le =
      let b = q.receive_queue in
      let rest =
        void_waiting-empty fuel ec (produce_received ec [] q) cs
          (rq.waiting-produce ec [] b ∙ ap tail e) (omega (arith, le)) in
      subst
        (λ t.
          Became q (if t then void_waiting fuel ec (produce_received ec [] q) else q) (rq.stored b)
            [] (consumed_all (voided_calls ec (c ∷ cs))))
        (sym (ap is_negative (depth_of-waiting b (c ∷ cs) e)))
        (
          rest.0 ∙ rq.stored-produce ec [] b ∙ ap (λ w. stored_after w (rq.stored b) (ec, [])) e,
          rest.1,
          rest.2
              ∙ ap
                  (λ calls.
                    (q.completions ++ consumed_all calls) ++ consumed_all (voided_calls ec cs))
                  (rq.produce_calls ec [] b ∙ ap (λ w. called_first w ec []) e)
              ∙ append_assoc q.completions (consumed_all ((c, ec, []) ∷ []))
                  (consumed_all (voided_calls ec cs))
              ∙ ap (λ t. q.completions ++ (t ++ consumed_all (voided_calls ec cs)))
                  (append-nil (consumed (c, ec, []))),
        )

  discard_stored-empty :
      (fuel : ℕ) (q : MessageQueue H Q S) (stored : List (ErrorCode × Packet))
      → rq.stored q.receive_queue ≡ stored
      → rq.waiting q.receive_queue ≡ []
      → length stored ≤ fuel
      → Became q (discard_stored fuel q) [] [] []
  unfolding discard_stored consumed_all consumed consume_received
  discard_stored-empty zero q [] e idle le = (e, idle, sym (append-nil q.completions))
  discard_stored-empty zero q (p ∷ ps) e idle le = absurd (omega (arith, le))
  discard_stored-empty (suc fuel) q [] e idle le =
      let b = q.receive_queue in
      subst
        (λ t. Became q (if t then discard_stored fuel (consume_received discard q) else q) [] [] [])
        (sym (ap is_positive (depth_of-waiting b [] idle ∙ ap (λ s. depth_of (length s) 0) e)))
        (e, idle, sym (append-nil q.completions))
  discard_stored-empty (suc fuel) q (p ∷ ps) e idle le =
      let b = q.receive_queue in
      let rest =
        discard_stored-empty fuel (consume_received discard q) ps
          (rq.stored-consume discard b ∙ ap tail e)
          (rq.waiting-consume discard b ∙ ap (λ s. waiting_after s (rq.waiting b) discard) e ∙ idle)
          (omega (arith, le)) in
      subst
        (λ t. Became q (if t then discard_stored fuel (consume_received discard q) else q) [] [] [])
        (sym (ap is_positive (depth_of-waiting b [] idle ∙ ap (λ s. depth_of (length s) 0) e)))
        (
          rest.0,
          rest.1,
          rest.2
              ∙ append-nil _
              ∙ ap (λ calls. q.completions ++ consumed_all calls)
                  (rq.consume_calls discard b ∙ ap (called_with discard) e),
        )

  -- After `voidReceives` with an error the receive queue is empty, and no receive waits; those that waited were called in
  -- their order, with that error and no octets, and no other handler was called.
  pub void_receives-interrupts :
      (ec : ErrorCode) (q : MessageQueue H Q S)
      → is_error ec ≡ true
      → let r = void_receives ec q in
        (rq.stored r.receive_queue ≡ [])
        × (rq.waiting r.receive_queue ≡ [])
        × (r.completions ≡ q.completions ++ interrupted ec (rq.waiting q.receive_queue))
  unfolding void_receives
  void_receives-interrupts ec q bad =
      let b = q.receive_queue in
      let voided = void_waiting (magnitude (rq.depth b)) ec q in
      let first = void_waiting-empty (magnitude (rq.depth b)) ec q (rq.waiting b) refl (
        subst (λ d. length (rq.waiting b) ≤ magnitude d) (sym (rq.depth_lem b))
          (depth-waiting (length (rq.stored b)) (length (rq.waiting b)))) in
      let then_discarded =
        discard_stored-empty (magnitude (rq.depth voided.receive_queue)) voided
          (rq.stored voided.receive_queue) refl first.1
          (subst (λ d. length (rq.stored voided.receive_queue) ≤ magnitude d)
            (sym (depth_of-waiting voided.receive_queue [] first.1)) (omega arith)) in
      (
        then_discarded.0,
        then_discarded.1,
        then_discarded.2
            ∙ append-nil voided.completions
            ∙ first.2
            ∙ ap (λ t. q.completions ++ t) (voided_calls_lem ec (rq.waiting b) bad),
      )
