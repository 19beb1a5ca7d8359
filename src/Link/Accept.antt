-- ===== src/Link/Accept.antt =====
-- User frames at a connected receiver, the expected one and others.
use libsfp.Base.{
  List, [], ◌∷◌, ◌++◌, ◌≡◌, ap, ◌∙◌, true, false, ◌||◌, ◌≢◌, is_some, arith, if◌then◌else◌,
}
use libsfp.State.{Context, Effect, Packet, FrameType, usr, rtx, connected, delivered}
use libsfp.Frame.{same_type, get_frame_type, get_frame_seq, next_seq}
use libsfp.Transmit.{with_lock, transmit_nak}
use libsfp.Transmit.Locked.{lock_calls, unlock_calls, calling, with_lock-nothing}
use libsfp.Handle.{handle_usr, accept_usr, usr_by_state}

-- The frame types that carry a user's packet.
abbrev pub IsUser : FrameType → Type 0
IsUser t = (same_type usr t || same_type rtx t) ≡ true

module _ {H : Type 0} where
  -- The calls that a receiver makes when it takes a user frame.
  abbrev pub delivery_calls : Context H → Packet → List Effect
  delivery_calls c payload =
      lock_calls c ++ (unlock_calls c ++ delivered c.rx.deliver c.rx.deliver_data payload ∷ [])

  pub handle_usr-connected :
      (c : Context H)
      → c.connect_state ≡ connected
      → IsUser (get_frame_type c.rx.header)
      → handle_usr c ≡ accept_usr (calling c (lock_calls c ++ unlock_calls c))
  unfolding handle_usr
  handle_usr-connected c up user =
      rw user (ap (λ s. usr_by_state s c) up ∙ ap accept_usr (with_lock-nothing c))

  pub accept_usr-expected :
      (c : Context H)
      → get_frame_seq c.rx.header ≡ c.rx.seq
      → is_some c.rx.deliver ≡ true
      → accept_usr c ≡ (
        record c {
          rx = record c.rx { seq = next_seq c.rx.seq };
          trace = c.trace ++ delivered c.rx.deliver c.rx.deliver_data c.rx.packet ∷ [];
        },
        true,
      )
  unfolding accept_usr
  accept_usr-expected c same has = ground (arith, same, has)

  pub accept_usr-unexpected :
      (c : Context H)
      → get_frame_seq c.rx.header ≢ c.rx.seq
      → accept_usr c ≡ (
        (if same_type usr (get_frame_type c.rx.header)
            then with_lock (transmit_nak c.rx.seq) c
            else c),
        false,
      )
  unfolding accept_usr
  accept_usr-unexpected c other = ground (arith, other)
