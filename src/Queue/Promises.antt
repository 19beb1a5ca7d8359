-- ===== src/Queue/Promises.antt =====
-- What the message queue promises to who sends with it, in any order of its steps.
use libsfp.Base.{
  ℕ, ◌+◌, ◌-◌, ◌≤◌, List, [], ◌∷◌, ◌≡◌, refl, sym, ap, ◌∙◌, subst, Bool, true, false, not,
  if◌then◌else◌, length, arith, length_zero, ◌==◌,
}
use libsfp.State.{RingBuffer}
use libsfp.Errors.{ErrorCode, no_error, network_down, is_error, is_aborted}
use libsfp.Queue.{ReceiveQueue, ByteStream, SendData, MessageQueue}
use libsfp.Queue.Pumps.{
  close, pop_and_call, void_outbox, begin_write, write_pump, handle_written, handle_write,
  check_written,
}
use libsfp.Queue.Quiet.{sends_done, close-Quiet}
use libsfp.Queue.Accounts.{count, users, owed-le, Accounts, Quiet-Accounts}
use libsfp.Queue.Outbox.{fronts, IsSound, pop_and_call-front, void_outbox-empty}
use libsfp.Queue.Writes.{check_written-Quiet}
use libsfp.Queue.Steps.{Reach}
use libsfp.Queue.Soundness.{Reach-IsSound, write-IsSound}

module _ {H Q S : Type 0} ⦃rb : RingBuffer H⦄ ⦃rq : ReceiveQueue Q⦄ ⦃bs : ByteStream S⦄ where
  -- In every state that a queue with nothing under way, such as a new one, comes to by calls of its
  -- methods, of handlers of writes, of reads and of the timer, in any order and with any errors (the
  -- handlers of the user make no calls), the writes in flight are one of the front of the outbox, or none
  -- if the outbox is empty; and at most one read is in flight.
  pub one_write_in_flight :
      {issued : List ℕ} {q : MessageQueue H Q S}
      → Reach issued q
      → (q.writing ≡ fronts q.outbox) × (q.reading ≤ 1)
  one_write_in_flight {q} reach =
      let s = Reach-IsSound reach in
      (s.in_flight, omega (arith, s.accounts.pump, owed-le q.read_pump_running))

  -- In every state that a queue with nothing under way comes to by such calls each handler of a send has been called and waits in the outbox, taken together, as
  -- often as it was given to `asyncSend`: none is lost, and none is called twice.
  pub sends_accounted :
      {issued : List ℕ} {q : MessageQueue H Q S}
      → Reach issued q
      → (h : ℕ) → count h (sends_done q.completions) + count h (users q.outbox) ≡ count h issued
  sends_accounted reach h = (Reach-IsSound reach).accounts.once h

  -- The write in flight, if there is one, is over with this result.
  unfoldable pub finish_write : List (List ℕ) → ErrorCode → MessageQueue H Q S → MessageQueue H Q S
  finish_write [] ec q = q
  finish_write (octets ∷ others) ec q =
      handle_write ec (length octets) (record q { writing = others })

  -- The writes in flight are over one after the other, with these results.
  unfoldable pub finish_writes : List ErrorCode → MessageQueue H Q S → MessageQueue H Q S
  unfolding finish_write
  finish_writes [] q = q
  finish_writes (ec ∷ ecs) q = finish_writes ecs (finish_write q.writing ec q)

  write_pump-shrinks :
      {issued : List ℕ} (q : MessageQueue H Q S)
      → Accounts issued q
      → length (write_pump q).outbox ≤ length q.outbox
  unfolding write_pump begin_write
  write_pump-shrinks q a = by_tests (not (length q.outbox == 0)) (bs.is_open q.stream) q.outbox refl
    where
      begun : (ds : List SendData) → length (begin_write ds q).outbox ≤ length q.outbox
      begun [] = omega arith
      begun (d ∷ ds) = omega arith

      by_tests :
          (b c : Bool) (ds : List SendData)
          → q.outbox ≡ ds
          → length
              (if b then (if c then begin_write ds q else void_outbox network_down q) else q).outbox
            ≤ length q.outbox
      by_tests true true ds e = begun ds
      by_tests true false ds e = omega (arith, ap length (void_outbox-empty network_down q a).1)
      by_tests false c ds e = omega arith

  handle_write-shrinks :
      {issued : List ℕ} (ec : ErrorCode) (n : ℕ) (q : MessageQueue H Q S) (d : SendData)
      (ds : List SendData)
      → q.outbox ≡ d ∷ ds
      → Accounts issued q
      → length (handle_write ec n q).outbox ≤ length ds
  unfolding handle_write handle_written
  handle_write-shrinks ec n q d ds e a = by_tests (not (is_error ec)) (not (is_aborted ec))
    where
      voided : length (void_outbox ec q).outbox ≤ length ds
      voided = omega (arith, ap length (void_outbox-empty ec q a).1)

      checked : MessageQueue H Q S
      checked = check_written q.outbox n q

      front : checked.outbox ≡ d ∷ ds
      front = (check_written-Quiet q.outbox n q).same_outbox ∙ e

      popped : length (write_pump (pop_and_call checked.outbox no_error checked)).outbox ≤ length ds
      popped =
          let after =
            pop_and_call-front no_error checked d ds front
              (Quiet-Accounts (check_written-Quiet q.outbox n q) a) in
          subst (λ o. length (write_pump (pop_and_call o no_error checked)).outbox ≤ length ds)
            (sym front)
            (omega (
              arith,
              write_pump-shrinks (pop_and_call (d ∷ ds) no_error checked) after.0,
              ap length after.1,
            ))

      by_tests :
          (b c : Bool)
          → length
              (if b
                then handle_written (λ x. x) n q
                else (if c then (close (void_outbox ec q)).0 else void_outbox ec q)).outbox
            ≤ length ds
      by_tests true c = popped
      by_tests false true =
          omega (arith, voided, ap length (close-Quiet (void_outbox ec q)).same_outbox)
      by_tests false false = voided

  finish_write-IsSound :
      {issued : List ℕ} (ec : ErrorCode) (q : MessageQueue H Q S)
      → IsSound issued q
      → let r = finish_write q.writing ec q in
        IsSound issued r × (length r.outbox ≤ length q.outbox - 1)
  unfolding finish_write
  finish_write-IsSound {issued} ec q s = by_writing q.writing refl q.outbox refl
    where
      by_writing :
          (writing : List (List ℕ))
          → q.writing ≡ writing
          → (ds : List SendData) → q.outbox ≡ ds
          → let r = finish_write writing ec q in
            IsSound issued r × (length r.outbox ≤ length q.outbox - 1)
      by_writing [] e [] f = (s, omega (arith, ap length f))
      by_writing [] e (d ∷ ds) f =
          absurd (omega (arith, ap length (sym e ∙ s.in_flight ∙ ap fronts f)))
      by_writing (octets ∷ others) e [] f =
          absurd (omega (arith, ap length (sym e ∙ s.in_flight ∙ ap fronts f)))
      by_writing (octets ∷ others) e (d ∷ ds) f = (
        write-IsSound ec (length octets) octets others q e s,
        omega (
          arith,
          ap length f,
          handle_write-shrinks ec (length octets) (record q { writing = others }) d ds f
              (record { once = s.accounts.once; pump = s.accounts.pump }),
        ),
      )

  finish_writes-IsSound :
      {issued : List ℕ} (results : List ErrorCode) (q : MessageQueue H Q S)
      → length q.outbox ≤ length results
      → IsSound issued q
      → IsSound issued (finish_writes results q) × ((finish_writes results q).outbox ≡ [])
  unfolding finish_writes
  finish_writes-IsSound [] q le s = (s, length_zero q.outbox le)
  finish_writes-IsSound (ec ∷ ecs) q le s =
      let first = finish_write-IsSound ec q s in
      finish_writes-IsSound ecs _ (omega (arith, first.1, le)) first.0

  -- From every state that a queue with nothing under way comes to by such calls, once as many writes are over as the outbox holds elements, with any results,
  -- no write is in flight, nothing waits in the outbox, and each handler of a send has been called as often
  -- as it was given to `asyncSend`.
  pub sends_finish :
      {issued : List ℕ} {q : MessageQueue H Q S} (results : List ErrorCode)
      → Reach issued q
      → length q.outbox ≤ length results
      → (h : ℕ)
      → let r = finish_writes results q in
        (r.writing ≡ []) × (r.outbox ≡ []) × (count h (sends_done r.completions) ≡ count h issued)
  sends_finish {q} results reach le h =
      let (s, empty) = finish_writes-IsSound results q le (Reach-IsSound reach) in
      (
        s.in_flight ∙ ap fronts empty,
        empty,
        omega (arith, s.accounts.once h, ap (λ o. count h (users o)) empty),
      )
