-- ===== src/Sender/Results.antt =====
-- The results of a batch.
use jotify.Prelude.{
  ℕ, ◌+◌, ◌≡◌, refl, ap, ◌∙◌, arith, ◌==◌, List, [], ◌∷◌, ◌++◌, map, if◌then◌else◌,
}
use jotify.Errs.{Error, Result, ok, err}
use jotify.Domain.{SendResult}
use jotify.Domain.Notification.{Notification}
use jotify.Sender.{
  Parts, result_of, appended, send_all, answered, all_sent, batch_send, batch_update_status,
}

-- How often a number is in a list.
unfoldable pub count : ℕ → List ℕ → ℕ
count k [] = 0
count k (x ∷ xs) = (if x == k then 1 else 0) + count k xs

count-append : (k : ℕ) (xs ys : List ℕ) → count k (xs ++ ys) ≡ count k xs + count k ys
unfolding count
count-append k [] ys = omega arith
count-append k (x ∷ xs) ys = omega (arith, count-append k xs ys)

abbrev pub result_ids : List SendResult → List ℕ
result_ids = map (λ (res : SendResult). res.notification_id)

abbrev pub notification_ids : List Notification → List ℕ
notification_ids = map (λ (n : Notification). n.id)

ids-append : (xs ys : List SendResult) → result_ids (xs ++ ys) ≡ result_ids xs ++ result_ids ys
ids-append [] ys = refl
ids-append (x ∷ xs) ys = ap (λ (l : List ℕ). x.notification_id ∷ l) (ids-append xs ys)

module _ {S : Type 0} (p : Parts S) (k : ℕ) where
  -- How many results there are for the id, in both lists.
  abbrev Results : Type 0
  Results = List SendResult × List SendResult

  total : Results → ℕ
  total (success, failure) = count k (result_ids success) + count k (result_ids failure)

  one_more :
      (xs : List SendResult) (r : SendResult)
      → count k (result_ids (xs ++ r ∷ []))
        ≡ count k (result_ids xs) + count k (r.notification_id ∷ [])
  one_more xs r = ap (count k) (ids-append xs (r ∷ [])) ∙ count-append k (result_ids xs) _

  total_none : total ([], []) ≡ 0
  unfolding total count
  total_none = refl

  total-appended :
      (n : Notification) (x : Result SendResult × S) (results : Results)
      → total (appended p n x results).0 ≡ total results + count k (n.id ∷ [])
  unfolding total
  total-appended n (err e, s) (success, failure) =
      omega (arith, one_more failure (result_of n (err e)))
  total-appended n (ok r, s) (success, failure) =
      omega (arith, one_more success (result_of n (ok r)))

  total-send_all :
      (ns : List Notification) (results : Results) (s : S)
      → total (send_all p ns results s).0 ≡ total results + count k (notification_ids ns)
  unfolding send_all count
  total-send_all [] results s = omega arith
  total-send_all (n ∷ ns) results s =
      let x = appended p n (p.channel_send n s) results in
      omega (arith, total-send_all ns x.0 x.1, total-appended n (p.channel_send n s) results)

-- There is one result for each notification, by its id, unless the batch fails.
pub data OneEach (ns : List Notification) : Result (List SendResult) → Type 0 where
  failed : (e : Error) → OneEach ns (err e)
  sent :
      (results : List SendResult)
      → ((k : ℕ) → count k (result_ids results) ≡ count k (notification_ids ns))
      → OneEach ns (ok results)

module _ {S : Type 0} (p : Parts S) where
  answered-OneEach :
      (ns : List Notification) (success failure : List SendResult)
      (m : Result (List (ℕ × Notification))) (s : S)
      → ((k : ℕ) → total p k (success, failure) ≡ count k (notification_ids ns))
      → OneEach ns (answered p success failure m s).0
  unfolding answered batch_update_status total
  answered-OneEach ns success failure (err e) s h = OneEach.failed e
  answered-OneEach ns success failure (ok m) s h = OneEach.sent _ (λ k.
      ap (count k) (ids-append success failure)
      ∙ count-append k (result_ids success) (result_ids failure)
      ∙ h k)

  -- In whatever order the goroutines run, BatchSend fails as a whole or returns exactly one result
  -- for each notification: every id is as often in the results as in the batch.
  pub batch_send-OneEach : (ns : List Notification) (s : S) → OneEach ns (batch_send p ns s).0
  unfolding batch_send all_sent
  batch_send-OneEach [] s = OneEach.sent [] (λ k. refl)
  batch_send-OneEach (n ∷ ns) s =
      let x = send_all p (n ∷ ns) ([], []) s in
      answered-OneEach (n ∷ ns) x.0.0 x.0.1 _ x.1
        (λ k. omega (arith, total-send_all p k (n ∷ ns) ([], []) s, total_none p k))
