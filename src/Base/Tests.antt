-- ===== src/Base/Tests.antt =====
-- Boolean tests on the native numbers, the conditional, and case splits that keep their equation.
use Prim.Native.Nat.{ℕ, zero, suc, ◌<◌, compare, Ordering}
use mathlib.Core.Path.{◌≡◌, refl}
use mathlib.Core.Logic.{◌↔◌, ◌⊎◌, inl, inr}
use mathlib.Core.Bool.{Bool, true, false, ◌&&◌}
use mathlib.Core.Option.{Option, none, some}
use native.Mathlib.Omega.{arith}

abbrev pub ltb : ℕ → ℕ → Bool
ltb a b = elim (compare a b) [ Ordering.lt ↦ true | _ ↦ false ]

abbrev pub leb : ℕ → ℕ → Bool
leb a b = elim (compare a b) [ Ordering.gt ↦ false | _ ↦ true ]

infix 50 ◌==◌
abbrev pub ◌==◌ : ℕ → ℕ → Bool
a == b = elim (compare a b) [ Ordering.eq ↦ true | _ ↦ false ]

infix 1 if◌then◌else◌
abbrev pub if◌then◌else◌ {ℓ} : {A : Type ℓ} → Bool → A → A → A
if true then x else y = x
if false then x else y = y

pub ==_iff : (a b : ℕ) → ((a == b) ≡ true) ↔ (a ≡ b)
==_iff a b = ground arith

pub Bool-cases : (b : Bool) → (b ≡ true) ⊎ (b ≡ false)
Bool-cases true = inl refl
Bool-cases false = inr refl

abbrev pub is_some {ℓ} : {A : Type ℓ} → Option A → Bool
is_some none = false
is_some (some a) = true

-- A property of every number below a bound, decided by evaluation.
unfoldable pub holds_below : ℕ → (ℕ → Bool) → Bool
holds_below zero test = true
holds_below (suc top) test = test top && holds_below top test

pub holds_below_at :
    (test : ℕ → Bool) (limit at : ℕ) → at < limit → holds_below limit test ≡ true → test at ≡ true
unfolding holds_below
holds_below_at test zero at lt all = absurd (omega arith)
holds_below_at test (suc top) at lt all = ground (arith, holds_below_at test top at)

-- The form in which a table proves an equation between two functions of a small number.
pub table_eq :
    (n : ℕ) (f g : ℕ → ℕ) → holds_below n (λ x. f x == g x) ≡ true → (x : ℕ) → x < n → f x ≡ g x
table_eq n f g h x lt = (==_iff (f x) (g x)).0 (holds_below_at (λ y. f y == g y) n x lt h)

pub holds_below_pairs :
    (n m : ℕ) (p : ℕ → ℕ → Bool) (x y : ℕ)
    → holds_below n (λ x. holds_below m (p x)) ≡ true
    → x < n
    → y < m
    → p x y ≡ true
holds_below_pairs n m p x y h hx hy =
    holds_below_at (p x) m y hy (holds_below_at (λ x. holds_below m (p x)) n x hx h)

pub table_pairs_eq :
    (n m : ℕ) (f g : ℕ → ℕ → ℕ)
    → holds_below n (λ x. holds_below m (λ y. f x y == g x y)) ≡ true
    → (x y : ℕ) → x < n
    → y < m
    → f x y ≡ g x y
table_pairs_eq n m f g h x y hx hy =
    (==_iff (f x y) (g x y)).0 (holds_below_pairs n m (λ x y. f x y == g x y) x y h hx hy)
