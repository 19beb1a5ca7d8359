-- ===== src/Stream/Messages.antt =====
-- The messages that a context hands out for octets: the packets that are not empty.
use libsfp.Base.{ℕ, List, [], ◌∷◌, ◌++◌, ◌≡◌, refl, sym, ap, ◌∙◌, false, some, none, append_assoc}
use libsfp.State.{Context, RingBuffer, Packet, max_packet_size}
use libsfp.Receive.{Returned, failed, unavailable, available, deliver_octet, deliver_octets}
use libsfp.Stream.{is_available, packet_after}

-- A packet that is not empty is a message.
abbrev pub message_of : Packet → List Packet
message_of [] = []
message_of (x ∷ xs) = (x ∷ xs) ∷ []

pub no_message :
    (rc : Returned) (p : Packet) → p ≡ [] → is_available rc ≡ false → packet_after rc p ≡ []
unfolding is_available packet_after
no_message failed p none_left e = none_left
no_message unavailable p none_left e = none_left
no_message (available none) p none_left e = none_left
no_message (available (some q)) p none_left e = cc

-- What the packet held before does not matter if it was empty.
pub packet_after-empty :
    (rc : Returned) (p : Packet) → p ≡ [] → packet_after rc p ≡ packet_after rc []
packet_after-empty rc p none_left = ap (packet_after rc) none_left

module _ {H : Type 0} ⦃rb : RingBuffer H⦄ where
  -- The packets that are not empty among those that the context hands out, octet by octet.
  unfoldable pub messages : List ℕ → Context H → List Packet
  messages [] c = []
  messages (o ∷ os) c =
      message_of (packet_after (deliver_octet (some max_packet_size) o c).1 [])
      ++ messages os (deliver_octet none o c).0

  pub messages-append :
      (xs ys : List ℕ) (c : Context H)
      → messages (xs ++ ys) c ≡ messages xs c ++ messages ys (deliver_octets xs c)
  unfolding messages deliver_octets
  messages-append [] ys c = refl
  messages-append (x ∷ xs) ys c =
      ap (λ l. message_of (packet_after (deliver_octet (some max_packet_size) x c).1 []) ++ l)
        (messages-append xs ys (deliver_octet none x c).0)
      ∙ sym (
          append_assoc (message_of (packet_after (deliver_octet (some max_packet_size) x c).1 []))
            (messages xs (deliver_octet none x c).0) _)
