-- ===== src/Sender/Quota.antt =====
-- The sender over the repository: what a send does to the quotas.
use jotify.Prelude.{ℕ, suc, ◌≡◌, refl, ap, ◌∙◌, String, List, [], ◌∷◌}
use jotify.Errs.{Error, Result, ok, err}
use jotify.Domain.{SendResult, send_status_success, send_status_failure}
use jotify.Domain.Notification.{Notification}
use jotify.Quota.{Redis, IsRedis, unreached, lost, param_key}
use jotify.Quota.Units.{left}
use jotify.Repo as Repo
use jotify.Repo.{Json, Dao, unit_param}
use jotify.Repo.Spend.{Refunds, mark_failure-Refunds}
use jotify.Sender.{
  Parts, with_status, marked, channel_answered, send, appended, send_all, answered, all_sent,
  batch_send, batch_update_status,
}

module _ (r : Redis) (json : Json) (dao : Dao) {T : Type 0}
    (channel : Notification → T → Result SendResult × T) (callback : Notification → T → T)
    (callbacks : List Notification → T → T)
    (lookup_ns : List ℕ → r.Store × dao.State → Result (List (ℕ × Notification))) where
  abbrev pub Store : Type 0
  Store = r.Store × dao.State

  -- The quotas and the notifications stand beside the state of the channel and the callbacks.
  abbrev pub parts : Parts (Store × T)
  parts = record {
    channel_send = λ n s. (((channel n s.1).0), (s.0, (channel n s.1).1));
    mark_success = λ n s.
        ((Repo.mark_success r json dao n s.0).0, ((Repo.mark_success r json dao n s.0).1, s.1));
    mark_failure = λ n s.
        ((Repo.mark_failure r json dao n s.0).0, ((Repo.mark_failure r json dao n s.0).1, s.1));
    get_map_by_ids = λ is s. lookup_ns is s.0;
    send_by_notification = λ n s. (s.0, callback n s.1);
    send_by_notifications = λ ns s. (s.0, callbacks ns s.1);
  }

  appended-keeps :
      (n : Notification) (x : Result SendResult × (Store × T))
      (results : List SendResult × List SendResult)
      → (appended parts n x results).1 ≡ x.1
  appended-keeps n (err e, s) results = refl
  appended-keeps n (ok _, s) results = refl

  send_all-keeps :
      (ns : List Notification) (results : List SendResult × List SendResult) (s : Store × T)
      → (send_all parts ns results s).1.0 ≡ s.0
  unfolding send_all
  send_all-keeps [] results s = refl
  send_all-keeps (n ∷ ns) results s =
      let x = appended parts n (parts.channel_send n s) results in
      send_all-keeps ns x.0 x.1
      ∙ ap (λ (t : Store × T). t.0) (appended-keeps n (parts.channel_send n s) results)

  answered-keeps :
      (success failure : List SendResult) (m : Result (List (ℕ × Notification))) (s : Store × T)
      → (answered parts success failure m s).1.0 ≡ s.0
  unfolding answered batch_update_status
  answered-keeps success failure (err e) s = refl
  answered-keeps success failure (ok m) s = refl

  -- BatchSend changes neither a quota nor a stored notification, however its sends end: no status
  -- is written, and what the failures have spent is not given back.
  batch_send-keeps : (ns : List Notification) (s : Store × T) → (batch_send parts ns s).1.0 ≡ s.0
  unfolding batch_send all_sent
  batch_send-keeps [] s = refl
  batch_send-keeps (n ∷ ns) s =
      let x = send_all parts (n ∷ ns) ([], []) s in
      answered-keeps x.0.0 x.0.1 _ x.1 ∙ send_all-keeps (n ∷ ns) ([], []) s

  -- How Send ends, with the quota of the key before and after it, for the answer of the channel
  -- and those of the DAO to marking a success and a failure.
  pub data Delivers (k : String) (n : Notification) (before after : r.Store)
      : Result SendResult → Result (Unit {0}) → Result (Unit {0}) → Result SendResult → Type 0 where
    delivered :
        (resp : SendResult) (failure : Result (Unit {0}))
        → before ≡ after
        → Delivers k n before after
            (ok resp)
            (ok tt)
            failure
            (ok (record { notification_id = n.id; status = send_status_success }))
    success_not_marked :
        (resp : SendResult) (e : Error) (failure : Result (Unit {0}))
        → before ≡ after
        → Delivers k n before after (ok resp) (err e) failure (err e)
    given_back :
        (f : Error) (success : Result (Unit {0}))
        → left r after k ≡ suc (left r before k)
        → Delivers k n before after
            (err f)
            success
            (ok tt)
            (ok (record { notification_id = n.id; status = send_status_failure }))
    failure_not_marked :
        (f e : Error) (success : Result (Unit {0}))
        → before ≡ after
        → Delivers k n before after (err f) success (err e) (err e)
    refund_unreached :
        (f e : Error) (success : Result (Unit {0}))
        → r.reply before ≡ unreached e
        → before ≡ after
        → Delivers k n before after (err f) success (ok tt) (err e)
    refund_lost :
        (f e : Error) (success : Result (Unit {0}))
        → r.reply before ≡ lost e
        → left r after k ≡ suc (left r before k)
        → Delivers k n before after (err f) success (ok tt) (err e)

  module _ (laws : IsRedis r) where
    of_success :
        (n : Notification) (s : r.Store) (t : T) (resp : SendResult) (failure : Result (Unit {0}))
        (x : Result (Unit {0}) × dao.State)
        → Delivers
            (param_key (unit_param n))
            n
            s
            ((marked parts (with_status send_status_success n) (x.0, ((s, x.1), t))).1.0.0)
            (ok resp)
            x.0
            failure
            ((marked parts (with_status send_status_success n) (x.0, ((s, x.1), t))).0)
    of_success n s t resp failure (err e, d) = Delivers.success_not_marked resp e failure refl
    of_success n s t resp failure (ok _, d) = Delivers.delivered resp failure refl

    of_failure :
        (n : Notification) (s : r.Store) (t : T) (f : Error) (success m : Result (Unit {0}))
        (x : Result (Unit {0}) × Store)
        → Refunds r (param_key (unit_param n)) s x.1.0 m x.0
        → Delivers
            (param_key (unit_param n))
            n
            s
            ((marked parts (with_status send_status_failure n) (x.0, (x.1, t))).1.0.0)
            (err f)
            success
            m
            ((marked parts (with_status send_status_failure n) (x.0, (x.1, t))).0)
    of_failure n s t f success _ (_, st) (Refunds.refunded e) = Delivers.given_back f success e
    of_failure n s t f success _ (_, st) (Refunds.not_marked e same) =
        Delivers.failure_not_marked f e success same
    of_failure n s t f success _ (_, st) (Refunds.refund_unreached e q same) =
        Delivers.refund_unreached f e success q same
    of_failure n s t f success _ (_, st) (Refunds.refund_lost e q g) =
        Delivers.refund_lost f e success q g

    -- The answers of the DAO to the marks that Send may make.
    abbrev pub success_mark : Notification → dao.State → Result (Unit {0})
    success_mark n d =
        (dao.mark_success (Repo.to_entity json (with_status send_status_success n)) d).0

    abbrev pub failure_mark : Notification → dao.State → Result (Unit {0})
    failure_mark n d =
        (dao.mark_failure (Repo.to_entity json (with_status send_status_failure n)) d).0

    of_channel :
        (n : Notification) (s : r.Store) (d : dao.State) (x : Result SendResult × T)
        → Delivers
            (param_key (unit_param n))
            n
            s
            ((channel_answered parts n (x.0, ((s, d), x.1))).1.0.0)
            x.0
            (success_mark n d)
            (failure_mark n d)
            ((channel_answered parts n (x.0, ((s, d), x.1))).0)
    unfolding Repo.mark_success
    of_channel n s d (err e, t) =
        of_failure n s t e (success_mark n d) (failure_mark n d)
          (Repo.mark_failure r json dao (with_status send_status_failure n) (s, d))
          (mark_failure-Refunds r laws json dao (with_status send_status_failure n) s d)
    of_channel n s d (ok resp, t) =
        of_success n s t resp (failure_mark n d)
          (dao.mark_success (Repo.to_entity json (with_status send_status_success n)) d)

    -- Where the channel succeeds, Send leaves the quotas and returns the status of a success, or
    -- the error of marking it. Where the channel fails, Send returns the status of a failure with
    -- one unit of the notification's quota given back, or the error of marking the failure with the
    -- quotas as they were, or the error of giving the unit back: with the quotas as they were where
    -- that call did not reach redis, and with the unit given back where only its answer was lost.
    pub send-Delivers :
        (n : Notification) (s : r.Store) (d : dao.State) (t : T)
        → Delivers
            (param_key (unit_param n))
            n
            s
            ((send parts n ((s, d), t)).1.0.0)
            (channel n t).0
            (success_mark n d)
            (failure_mark n d)
            ((send parts n ((s, d), t)).0)
    unfolding send
    send-Delivers n s d t = of_channel n s d (channel n t)
