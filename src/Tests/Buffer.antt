-- ===== src/Tests/Buffer.antt =====
-- A ring buffer of at most eight packets that stores them as a list: an instance of the interface
-- that stands for `util::PotRingbuffer`.
use libsfp.Base.{
  ℕ, zero, suc, ◌≤◌, List, [], ◌∷◌, ◌++◌, ◌≡◌, refl, some, ltb, ◌==◌, if◌then◌else◌, length, tail,
  get_elem?, length-append, length-tail, arith,
}
use libsfp.State.{RingBuffer, Packet, history_capacity}

pub record Bounded : Type 0 where
  pub items : List Packet
  pub bounded : length items ≤ 8

unfoldable pub pushed : List Packet → Packet → List Packet
pushed xs p = (if ltb (length xs) 8 then xs else tail xs) ++ p ∷ []

pub length-pushed : (xs : List Packet) (p : Packet) → length xs ≤ 8 → length (pushed xs p) ≤ 8
unfolding pushed
length-pushed xs p le =
    ground
      (arith, length-append (if ltb (length xs) 8 then xs else tail xs) (p ∷ []), length-tail xs)

pub length-tail_le : (xs : List Packet) → length xs ≤ 8 → length (tail xs) ≤ 8
length-tail_le xs le = omega (arith, length-tail xs)

unfoldable pub item_at : List Packet → ℕ → Packet
item_at [] i = []
item_at (x ∷ xs) zero = x
item_at (x ∷ xs) (suc i) = item_at xs i

pub item_at_lem :
    (xs : List Packet) (i : ℕ) (p : Packet) → get_elem? xs i ≡ some p → item_at xs i ≡ p
unfolding item_at
item_at_lem [] i p e = cc
item_at_lem (x ∷ xs) zero p e = cc
item_at_lem (x ∷ xs) (suc i) p e = item_at_lem xs i p e

pub pushed_lem :
    (xs : List Packet) (p : Packet)
    → pushed xs p ≡ (if ltb (length xs) history_capacity then xs else tail xs) ++ p ∷ []
unfolding pushed
pushed_lem xs p = refl

instance unfoldable pub list_buffer : RingBuffer Bounded
list_buffer = record {
  fresh = record { items = []; bounded = omega arith };
  size = λ h. length h.items;
  is_empty = λ h. length h.items == 0;
  push_back =
      λ h p. record { items = pushed h.items p; bounded = length-pushed h.items p h.bounded };
  pop_front = λ h. record { items = tail h.items; bounded = length-tail_le h.items h.bounded };
  at = λ h. item_at h.items;
  to_list = λ h. h.items;
  to_list-fresh = refl;
  size_lem = λ h. refl;
  size-le = λ h. h.bounded;
  is_empty_lem = λ h. refl;
  to_list-pop_front = λ h. refl;
  at_lem = λ h. item_at_lem h.items;
  to_list-push_back = λ h. pushed_lem h.items;
}
