-- ===== src/Send/Channel.antt =====
-- What the loop over the providers comes to.
use jotify.Prelude.{
  ℕ, suc, ◌+◌, ◌≡◌, refl, ap, sym, ◌∙◌, arith, false, List, [], ◌∷◌, some, length, get_elem?, ◌==◌,
  ==_iff, ◌<◌,
}
use jotify.Errs.{Result, ok, err, not_available_provider}
use jotify.Domain.{SendResult}
use jotify.Domain.Notification.{Notification}
use jotify.Send.{
  Provider, SeqSelector, Outcome, panicked, after_send, round, next, send_loop, channel_send,
}

module _ {S : Type 0} where
  -- The providers tried in turn until one succeeds: a panic where none does.
  unfoldable pub first_success : List (Provider S) → Notification → S → Outcome × S
  first_success [] n s = (panicked, s)
  first_success (p ∷ ps) n s = after_send (p n s) (λ t. first_success ps n t)

  next_end :
      (ps : List (Provider S)) (i : ℕ)
      → i ≡ length ps
      → next (record { index = i; providers = ps })
        ≡ (err not_available_provider, record { index = i; providers = ps })
  unfolding next
  next_end ps i e = simp ((==_iff (length ps) i).1 (sym e))

  next_middle :
      (ps : List (Provider S)) (i : ℕ) (p : Provider S)
      → get_elem? ps i ≡ some p
      → i < length ps
      → next (record { index = i; providers = ps })
        ≡ (ok p, record { index = i + 1; providers = ps })
  unfolding next
  next_middle ps i p e lt = simp (e, not_equal)
    where
      not_equal : (length ps == i) ≡ false
      not_equal = ground arith

  loop_end :
      (rounds : ℕ) (n : Notification) (all : List (Provider S)) (i : ℕ) (s : S)
      → next (record { index = i; providers = all })
        ≡ (err not_available_provider, record { index = i; providers = all })
      → send_loop (suc rounds) n (record { index = i; providers = all }) s ≡ (panicked, s)
  unfolding send_loop
  loop_end rounds n all i s h =
      ap
        (λ (x : Result (Provider S) × SeqSelector S). round x.0 n s (λ t. send_loop rounds n x.1 t))
        h

  after_lem :
      (x : Result SendResult × S) (f g : S → Outcome × S)
      → ((t : S) → f t ≡ g t)
      → after_send x f ≡ after_send x g
  after_lem (err e, t) f g h = h t
  after_lem (ok resp, t) f g h = refl

  loop_lem :
      (ps all : List (Provider S)) (i : ℕ)
      → length all ≡ i + length ps
      → ((k : ℕ) → get_elem? all (i + k) ≡ get_elem? ps k)
      → (n : Notification) (s : S)
      → send_loop (suc (length ps)) n (record { index = i; providers = all }) s
        ≡ first_success ps n s
  unfolding send_loop first_success
  loop_lem [] all i size same n s = loop_end 0 n all i s (next_end all i (omega arith))
  loop_lem (p ∷ ps) all i size same n s =
      let here : get_elem? all i ≡ some p =
        ap (λ (k : ℕ). get_elem? all k) (omega arith) ∙ same 0 in
      ap
        (λ (x : Result (Provider S) × SeqSelector S).
          round x.0 n s (λ t. send_loop (suc (length ps)) n x.1 t))
        (next_middle all i p here (omega arith))
      ∙ after_lem (p n s) _ _ (λ t.
        loop_lem ps all (i + 1) (omega arith)
          (λ k. ap (λ (j : ℕ). get_elem? all j) (omega arith) ∙ same (suc k)) n t)

  -- Sending over a channel asks the providers in turn until one succeeds and returns its response,
  -- in the state that the calls have left; where none succeeds, it panics instead of returning
  -- that no provider is available.
  pub channel_send-first_success :
      (providers : List (Provider S)) (n : Notification) (s : S)
      → channel_send providers n s ≡ first_success providers n s
  unfolding channel_send
  channel_send-first_success providers n s =
      loop_lem providers providers 0 (omega arith)
        (λ k. ap (λ (j : ℕ). get_elem? providers j) (omega arith)) n s
