-- ===== src/Stream/Commits.antt =====
-- What the calls of `on_sfp_write` put into the write buffer, and when one of them throws.
use libsfp.Base.{
  ℕ, ◌+◌, ◌≤◌, List, [], ◌∷◌, ◌++◌, ◌≡◌, refl, ap, ◌∙◌, inl, inr, Bool, true, false, some, none,
  if◌then◌else◌, length, drop, drop-append, ltb, arith, append-nil, append_assoc, length-append,
  Bool-cases,
}
use libsfp.State.{Context, Effect, wrote, delivered, locked, unlocked, assert_failed}
use libsfp.Stream.{Stream, buffer_limit, unless_thrown, commit_writes, keep_writes}
use libsfp.Trace.{written}

-- All that is written at once fits, or the writes throw.
commit_writes_lem :
    (es : List Effect) (buffer : List ℕ)
    → length buffer ≤ buffer_limit
    → commit_writes es buffer ≡ (
        if ltb buffer_limit (length buffer + length (written es))
        then none
        else some (buffer ++ written es))
unfolding commit_writes written
commit_writes_lem [] buffer le =
    let fits : ltb buffer_limit (length buffer + 0) ≡ false = ground (arith, le) in
    rw (fits, append-nil buffer) refl
commit_writes_lem (wrote f d octets ∷ es) buffer le =
    elim (Bool-cases (ltb buffer_limit (length buffer + length octets))) [
      | inl over ↦
          let all_over : ltb buffer_limit (length buffer + length (octets ++ written es)) ≡ true =
            ground (arith, over, length-append octets (written es)) in
          rw (over, all_over) refl
      | inr fits ↦
          let room : length (buffer ++ octets) ≤ buffer_limit =
            ground (arith, fits, length-append buffer octets) in
          let same : length (buffer ++ octets) + length (written es)
              ≡ length buffer + length (octets ++ written es) =
            omega (arith, length-append buffer octets, length-append octets (written es)) in
          rw fits (commit_writes_lem es (buffer ++ octets) room)
          ∙ ap (λ n. if ltb buffer_limit n then none else some ((buffer ++ octets) ++ written es))
              same
          ∙ ap
              (λ b.
                if ltb buffer_limit (length buffer + length (octets ++ written es))
                then none
                else some b)
              (append_assoc buffer octets (written es))
    ]
commit_writes_lem (delivered f d p ∷ es) buffer le = commit_writes_lem es buffer le
commit_writes_lem (locked f d ∷ es) buffer le = commit_writes_lem es buffer le
commit_writes_lem (unlocked f d ∷ es) buffer le = commit_writes_lem es buffer le
commit_writes_lem (assert_failed ∷ es) buffer le = commit_writes_lem es buffer le

module _ {H : Type 0} where
  pub keep_writes_lem :
      (before : Context H) (t : Stream H) (es : List Effect)
      → t.sfp_context.trace ≡ before.trace ++ es
      → length t.write_buffer ≤ buffer_limit
      → keep_writes before t ≡ (
          if ltb buffer_limit (length t.write_buffer + length (written es))
          then none
          else some (record t { write_buffer = t.write_buffer ++ written es }))
  unfolding keep_writes
  keep_writes_lem before t es goes_on le =
      ap
        (λ l.
          unless_thrown none (commit_writes l t.write_buffer)
            (λ buffer. some (record t { write_buffer = buffer })))
        (ap (drop (length before.trace)) goes_on
          ∙ drop-append before.trace es (length before.trace) refl)
      ∙ ap (λ r. unless_thrown none r (λ buffer. some (record t { write_buffer = buffer })))
          (commit_writes_lem es t.write_buffer le)
      ∙ by_room (ltb buffer_limit (length t.write_buffer + length (written es)))
    where
      by_room :
          (over : Bool)
          → unless_thrown none
              (if over then none else some (t.write_buffer ++ written es))
              (λ buffer. some (record t { write_buffer = buffer }))
            ≡ (if over
                then none
                else some (record t { write_buffer = t.write_buffer ++ written es }))
      by_room true = refl
      by_room false = refl
