-- ===== src/Frame/Stuffing.antt =====
-- Octet stuffing, octet by octet, and the flags among stuffed octets.
use libsfp.Base.{
  ℕ, List, [], ◌∷◌, ◌++◌, ◌≡◌, refl, append_assoc, Bool-cases, inl, inr, bit_xor, true, false, ◌==◌,
  arith, ◌||◌, Bool, sym, subst,
}
use libsfp.State.{esc, flag, esc_flip_bit}
use libsfp.Frame.{stuff, is_reserved_octet}

pub stuff-nil : stuff [] ≡ []
unfolding stuff
stuff-nil = refl

pub stuff-append : (xs ys : List ℕ) → stuff (xs ++ ys) ≡ stuff xs ++ stuff ys
unfolding stuff
stuff-append [] ys = refl
stuff-append (x ∷ xs) ys = rw (stuff-append xs ys, append_assoc)

-- Whether there is a flag among the octets.
unfoldable pub has_flag : List ℕ → Bool
has_flag [] = false
has_flag (o ∷ os) = o == flag || has_flag os

flipped_flag : (o : ℕ) → is_reserved_octet o ≡ true → (bit_xor o esc_flip_bit == flag) ≡ false
unfolding is_reserved_octet
flipped_flag o e = elim (Bool-cases (o == esc)) [
  | inl is_esc ↦
      let same : o ≡ esc = ground (arith, is_esc) in
      subst (λ n. (bit_xor n esc_flip_bit == flag) ≡ false) (sym same) refl
  | inr no_esc ↦
      let same : o ≡ flag = ground (arith, no_esc, e) in
      subst (λ n. (bit_xor n esc_flip_bit == flag) ≡ false) (sym same) refl
]

-- Whatever the octets are, no flag is among them once they are stuffed.
stuff-has_flag : (os : List ℕ) → has_flag (stuff os) ≡ false
unfolding stuff has_flag is_reserved_octet
stuff-has_flag [] = refl
stuff-has_flag (o ∷ os) = elim (Bool-cases (is_reserved_octet o)) [
  | inl reserved ↦ rw reserved (ground (arith, flipped_flag o reserved, stuff-has_flag os))
  | inr plain ↦ rw plain (ground (arith, plain, stuff-has_flag os))
]
