-- ===== src/Job/Rounds.antt =====
-- How the loop over the business function ends.
use jotify.Prelude.{ℕ, zero, suc, ◌+◌, ◌<◌, ◌≡◌, ap, ◌∙◌, arith, Option, none, some, refl}
use jotify.Errs.{Error, err, returned}
use jotify.Job.{Round, ended_by, biz_round, biz_loop}

end_from :
    (n k rounds : ℕ) (answers : ℕ → Round) (e : Error)
    → n < rounds
    → ((i : ℕ) → i < n → ended_by (answers (k + i)) ≡ none)
    → ended_by (answers (k + n)) ≡ some e
    → biz_loop rounds k answers ≡ returned (err e)
unfolding biz_loop
end_from n k zero answers e lt quiet ends = absurd (omega arith)
end_from zero k (suc rounds) answers e lt quiet ends =
    let here : k ≡ k + 0 = omega arith in
    ap (λ (o : Option Error). biz_round o (biz_loop rounds (k + 1) answers))
      (ap (λ (i : ℕ). ended_by (answers i)) here ∙ ends)
end_from (suc n) k (suc rounds) answers e lt quiet ends =
    let here : k ≡ k + 0 = omega arith in
    let there : k + 1 + n ≡ k + suc n = omega arith in
    ap (λ (o : Option Error). biz_round o (biz_loop rounds (k + 1) answers))
      (ap (λ (i : ℕ). ended_by (answers i)) here ∙ quiet 0 (omega arith))
    ∙ end_from n (k + 1) rounds answers e (omega arith)
        (λ i below. ap (λ (j : ℕ). ended_by (answers j)) (shift i) ∙ quiet (suc i) (omega arith))
        (ap (λ (j : ℕ). ended_by (answers j)) there ∙ ends)
  where
    shift : (i : ℕ) → k + 1 + i ≡ k + suc i
    shift i = omega arith

-- What a round has to end with, whatever its business function answers: the error of its context,
-- and without one that of the refresh.
pub data Ends : Round → Option Error → Type 0 where
  by_ctx :
      (biz refresh : Option Error) (e : Error)
      → Ends (record { biz_err = biz; ctx_err = some e; refresh = refresh }) (some e)
  by_refresh :
      (biz : Option Error) (e : Error)
      → Ends (record { biz_err = biz; ctx_err = none; refresh = some e }) (some e)
  goes_on :
      (biz : Option Error) → Ends (record { biz_err = biz; ctx_err = none; refresh = none }) none

ended_by-Ends : (r : Round) (o : Option Error) → Ends r o → ended_by r ≡ o
ended_by-Ends _ _ (by_ctx none refresh e) = refl
ended_by-Ends _ _ (by_ctx (some l) refresh e) = refl
ended_by-Ends _ _ (by_refresh none e) = refl
ended_by-Ends _ _ (by_refresh (some l) e) = refl
ended_by-Ends _ _ (goes_on none) = refl
ended_by-Ends _ _ (goes_on (some l)) = refl

-- The loop of the business function ends in the first round in which the context is done or the
-- lock is not refreshed, with that round's error, the context's where there are both; any number of
-- rounds above those before it is enough. The rounds before it and that round may have any errors of
-- the business function: these never end the loop.
pub biz_loop-first_end :
    (n rounds : ℕ) (answers : ℕ → Round) (e : Error)
    → n < rounds
    → ((i : ℕ) → i < n → Ends (answers i) none)
    → Ends (answers n) (some e)
    → biz_loop rounds 0 answers ≡ returned (err e)
biz_loop-first_end n rounds answers e lt quiet ends =
    end_from n 0 rounds answers e lt
      (λ i below.
        ap (λ (j : ℕ). ended_by (answers j)) (plain i) ∙ ended_by-Ends _ _ (quiet i below))
      (ap (λ (j : ℕ). ended_by (answers j)) (plain n) ∙ ended_by-Ends _ _ ends)
  where
    plain : (i : ℕ) → 0 + i ≡ i
    plain i = omega arith
