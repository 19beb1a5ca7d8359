-- ===== src/Stream/Loops.antt =====
-- Where the loops of `handshake_op` end.
use libsfp.Base.{
  ℕ, List, [], ◌∷◌, ◌≡◌, refl, sym, ap, ◌∙◌, Bool, true, false, not, some, none, Option,
  if◌then◌else◌,
}
use libsfp.State.{RingBuffer}
use libsfp.Errors.{no_error, is_error}
use libsfp.Stream.{unless_thrown}
use libsfp.Stream.Operations.{
  Session, Round, Progress, waits, completes, throws, ends_well, start_write, consume_written,
  consume_read, feed, read_until,
}

module _ {H : Type 0} ⦃rb : RingBuffer H⦄ where
  -- A loop that ends without an error ends with its test.
  pub read_until-ends :
      (P : Session H → Type 0) (done : Session H → Bool)
      → ((octets : List ℕ) (t u : Session H)
          → feed octets t ≡ some u
          → P (consume_written (start_write u)))
      → (rs : List Round) (s : Session H) → P s
      → let r = read_until done rs s in ends_well r.1 ≡ true → (done r.0 ≡ true) × P r.0
  unfolding read_until ends_well
  read_until-ends P done keeps [] s now ok = by_test (done s) refl ok
    where
      by_test :
          (b : Bool)
          → done s ≡ b
          → ends_well (if b then completes no_error else waits) ≡ true
          → (done s ≡ true) × P s
      by_test true e ok = (e, now)
      by_test false e ok = cc
  read_until-ends P done keeps (r ∷ rs) s now ok =
      by_tests (done s) (is_error r.read_ec) refl refl (feed r.octets cleared) refl
        (λ fed e.
          read_until-ends P done keeps rs (consume_written (start_write fed))
            (keeps r.octets cleared fed e))
        ok
    where
      cleared : Session H
      cleared = consume_read s

      goes_on : Session H → Session H × Progress
      goes_on fed =
          if is_error r.write_ec
          then (start_write fed, completes r.write_ec)
          else read_until done rs (consume_written (start_write fed))

      Ends : Session H × Progress → Type 0
      Ends t = ends_well t.1 ≡ true → (done t.0 ≡ true) × P t.0

      by_write :
          (b : Bool)
          → is_error r.write_ec ≡ b
          → (fed : Session H) (rest : Session H × Progress) → Ends rest
          → Ends (if b then (start_write fed, completes r.write_ec) else rest)
      by_write true e fed rest ih ok = let bad : false ≡ true = ap not (sym e) ∙ ok in cc
      by_write false e fed rest ih ok = ih ok

      by_feed :
          (f : Option (Session H))
          → feed r.octets cleared ≡ f
          → ((fed : Session H)
              → feed r.octets cleared ≡ some fed
              → Ends (read_until done rs (consume_written (start_write fed))))
          → Ends (unless_thrown (cleared, throws) f goes_on)
      by_feed none e ih ok = cc
      by_feed (some fed) e ih ok =
          by_write (is_error r.write_ec) refl fed
            (read_until done rs (consume_written (start_write fed))) (ih fed e) ok

      by_tests :
          (b c : Bool)
          → done s ≡ b
          → is_error r.read_ec ≡ c
          → (f : Option (Session H)) → feed r.octets cleared ≡ f
          → ((fed : Session H)
              → feed r.octets cleared ≡ some fed
              → Ends (read_until done rs (consume_written (start_write fed))))
          → Ends (
              if b
              then (s, completes no_error)
              else (if c
                  then (cleared, completes r.read_ec)
                  else unless_thrown (cleared, throws) f goes_on))
      by_tests true c e g f h ih ok = (e, now)
      by_tests false true e g f h ih ok = let bad : false ≡ true = ap not (sym g) ∙ ok in cc
      by_tests false false e g f h ih ok = by_feed f h ih ok
