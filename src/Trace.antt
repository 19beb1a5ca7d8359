-- ===== src/Trace.antt =====
-- What the trace of a context says: the octets that it put on the wire, and the packets that it
-- delivered to its user.
use libsfp.Base.{
  List, [], ◌∷◌, ◌++◌, ◌≡◌, refl, ap, ◌∙◌, append_assoc, append-nil, ℕ, flatten, map, sym, arith,
  drop, drop-append, length,
}
use libsfp.State.{
  Context, Effect, wrote, delivered, locked, unlocked, assert_failed, Packet, Pointer,
}
use libsfp.Transmit.Locked.{lock_calls, unlock_calls}

unfoldable pub written : List Effect → List ℕ
written [] = []
written (wrote f d octets ∷ es) = octets ++ written es
written (delivered f d p ∷ es) = written es
written (locked f d ∷ es) = written es
written (unlocked f d ∷ es) = written es
written (assert_failed ∷ es) = written es

unfoldable pub deliveries : List Effect → List Packet
deliveries [] = []
deliveries (wrote f d octets ∷ es) = deliveries es
deliveries (delivered f d p ∷ es) = p ∷ deliveries es
deliveries (locked f d ∷ es) = deliveries es
deliveries (unlocked f d ∷ es) = deliveries es
deliveries (assert_failed ∷ es) = deliveries es

pub written-append : (xs ys : List Effect) → written (xs ++ ys) ≡ written xs ++ written ys
unfolding written
written-append [] ys = refl
written-append (wrote f d octets ∷ es) ys =
    ap (λ x. octets ++ x) (written-append es ys)
    ∙ sym (append_assoc octets (written es) (written ys))
written-append (delivered f d p ∷ es) ys = written-append es ys
written-append (locked f d ∷ es) ys = written-append es ys
written-append (unlocked f d ∷ es) ys = written-append es ys
written-append (assert_failed ∷ es) ys = written-append es ys

pub deliveries-append :
    (xs ys : List Effect) → deliveries (xs ++ ys) ≡ deliveries xs ++ deliveries ys
unfolding deliveries
deliveries-append [] ys = refl
deliveries-append (wrote f d octets ∷ es) ys = deliveries-append es ys
deliveries-append (delivered f d p ∷ es) ys = ap (λ x. p ∷ x) (deliveries-append es ys)
deliveries-append (locked f d ∷ es) ys = deliveries-append es ys
deliveries-append (unlocked f d ∷ es) ys = deliveries-append es ys
deliveries-append (assert_failed ∷ es) ys = deliveries-append es ys

pub written-writes :
    (f : Pointer) (d : ℕ) (chunks : List (List ℕ))
    → written (map (wrote f d) chunks) ≡ flatten chunks
unfolding written flatten
written-writes f d [] = refl
written-writes f d (x ∷ xs) = ap (λ o. x ++ o) (written-writes f d xs)

pub deliveries-writes :
    (f : Pointer) (d : ℕ) (chunks : List (List ℕ)) → deliveries (map (wrote f d) chunks) ≡ []
unfolding deliveries
deliveries-writes f d [] = refl
deliveries-writes f d (x ∷ xs) = deliveries-writes f d xs

pub same_suffix : {A : Type 0} (xs ys zs : List A) → xs ++ ys ≡ xs ++ zs → ys ≡ zs
same_suffix xs ys zs e =
    sym (drop-append xs ys (length xs) refl)
    ∙ ap (drop (length xs)) e
    ∙ drop-append xs zs (length xs) refl

-- A trace that goes on.
abbrev pub Grows : List Effect → List Effect → Type 0
Grows before after = (es : List Effect) × (after ≡ before ++ es)

pub Grows-refl : (t : List Effect) → Grows t t
Grows-refl t = ([], sym (append-nil t))

pub Grows-trans : (t : List Effect) {u v : List Effect} → Grows t u → Grows u v → Grows t v
Grows-trans t (es, e) (fs, f) = (es ++ fs, f ∙ ap (λ x. x ++ fs) e ∙ append_assoc t es fs)

module _ {H : Type 0} (c : Context H) where
  pub written-lock_calls : written (lock_calls c) ≡ []
  unfolding lock_calls written
  written-lock_calls = ground arith

  pub written-unlock_calls : written (unlock_calls c) ≡ []
  unfolding unlock_calls written
  written-unlock_calls = ground arith

  pub deliveries-lock_calls : deliveries (lock_calls c) ≡ []
  unfolding lock_calls deliveries
  deliveries-lock_calls = ground arith

  pub deliveries-unlock_calls : deliveries (unlock_calls c) ≡ []
  unfolding unlock_calls deliveries
  deliveries-unlock_calls = ground arith

pub ruleset trace_laws = (
  written-append, deliveries-append, written-writes, deliveries-writes, written-lock_calls,
  written-unlock_calls, deliveries-lock_calls, deliveries-unlock_calls,
)
