-- ===== src/Node.antt =====
-- `sfp::Context` of include/sfp/context.hpp, the C++ class around the C context. Its signals are not
-- the repository's code: what they are raised with is what the callbacks are called with.
pub mod Slots
use libsfp.Api
use libsfp.Base.{ℕ, ◌+◌, List, [], ◌∷◌, ◌++◌, Bool, true, false, not, some, none, if◌then◌else◌}
use libsfp.State.{Context, RingBuffer, Packet, assert}
use libsfp.Receive.{Returned, failed, unavailable, available, deliver_octet}
use libsfp.Api.{
  init, set_deliver_callback, set_write_callback, set_lock_callback, set_unlock_callback,
  write_packet,
}

-- `-1 != rc`.
unfoldable pub has_succeeded : Returned → Bool
has_succeeded failed = false
has_succeeded unavailable = true
has_succeeded (available p) = true

-- `for (i = 0; i != len; ++i)` of `staticWrite`: the octets that `output` was raised with, and `i`.
unfoldable pub write_loop : List ℕ → List ℕ × ℕ → List ℕ × ℕ
write_loop [] (output, i) = (output, i)
write_loop (o ∷ os) (output, i) = write_loop os (output ++ o ∷ [], i + 1)

-- The result is the octets that were raised and `*outlen`.
unfoldable pub static_write : List ℕ → List ℕ × ℕ
unfolding write_loop
static_write octets = write_loop octets ([], 0)

module _ {H : Type 0} where
  -- The numbers stand for the addresses of the four static functions and of the object; `threadsafe`
  -- tells whether SFP_CONFIG_THREADSAFE is defined.
  unfoldable pub initialize :
      (deliver write lock unlock this : ℕ) → (threadsafe : Bool) → Context H → Context H
  unfolding init set_deliver_callback set_write_callback set_lock_callback set_unlock_callback
  initialize deliver write lock unlock this threadsafe c =
      let ready =
        set_write_callback (some write) this (set_deliver_callback (some deliver) this (init c)) in
      if threadsafe
      then set_unlock_callback (some unlock) this (set_lock_callback (some lock) this ready)
      else ready

  unfoldable pub is_connected : Context H → Bool
  is_connected c = Api.is_connected c

module _ {H : Type 0} ⦃rb : RingBuffer H⦄ where
  unfoldable pub input : ℕ → Context H → Context H
  unfolding has_succeeded
  input octet c = let (d, rc) = deliver_octet none octet c in assert (has_succeeded rc) d

  unfoldable pub send_message : Packet → Context H → Context H
  send_message buf c = (write_packet buf c).0

  unfoldable pub connect : Context H → Context H
  connect c = Api.connect c
