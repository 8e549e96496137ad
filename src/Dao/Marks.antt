-- ===== src/Dao/Marks.antt =====
-- What the updates of single notifications report.
use jotify.Prelude.{
  ℕ, ◌≡◌, refl, ap, ◌∙◌, arith, Bool, true, false, if◌then◌else◌, Option, none, some,
}
use jotify.Prelude.Int.{ℤ, pos}
use jotify.Errs.{Result, ok, err, Error}
use jotify.Sharding.{shard_with_id}
use jotify.Repo.{Entity}
use jotify.Dao.{
  Gorm, Sharded, DbError, transaction, compare_and_swap_status, mark_success, swapped, settled,
  load_error,
}

module _ (db : Gorm) (sh : Sharded) where
  swapped_lem :
      (rows : ℕ) (x : (Option DbError × ℤ) × db.State)
      → x.0 ≡ (none, pos rows)
      → (swapped db sh x).0 ≡ ok tt
  swapped_lem rows ((some e, r), t) h = ground (arith, ap (λ p. p.0) h)
  swapped_lem rows ((none, r), t) h = ground (arith, ap (λ p. p.1) h)

  -- The swap of a status succeeds whenever the update has no error, however many rows it met: also
  -- with none, where another update has changed the version before.
  compare_and_swap-blind :
      (now : ℤ) (n : Entity) (s : db.State) (rows : ℕ)
      → db.loaded ((shard_with_id sh.notif_strategy n.id).db) ≡ true
      → (db.update_status
          (shard_with_id sh.notif_strategy n.id)
          n.id
          (some n.version)
          n.status
          now
          s).0
        ≡ (none, pos rows)
      → (compare_and_swap_status db sh now n s).0 ≡ ok tt
  unfolding compare_and_swap_status
  compare_and_swap-blind now n s rows here met =
      ap
        (λ (b : Bool).
          (if b
            then swapped db sh (
                db.update_status (shard_with_id sh.notif_strategy n.id) n.id (some n.version)
                  n.status now s)
            else (err (load_error db sh (shard_with_id sh.notif_strategy n.id)), s)).0)
        here
      ∙ swapped_lem rows
          (db.update_status (shard_with_id sh.notif_strategy n.id) n.id (some n.version) n.status
            now s)
          met

  undone :
      (b : Bool) (x : Result (Unit {0}) × db.State) (e f : Error) (s : db.State)
      → (if b then settled s x else (err f, s)).0 ≡ err e
      → (if b then settled s x else (err f, s)).1 ≡ s
  undone true (ok a, t) e f s h = ground arith
  undone true (err g, t) e f s h = refl
  undone false x e f s h = refl

  -- Marking a success that reports an error, of the notification or of its callback log, has
  -- changed nothing.
  pub mark_success-undone :
      (now : ℤ) (n : Entity) (s : db.State) (e : Error)
      → (mark_success db sh now n s).0 ≡ err e
      → (mark_success db sh now n s).1 ≡ s
  unfolding mark_success transaction
  mark_success-undone now n s e h =
      undone (db.loaded ((shard_with_id sh.notif_strategy n.id).db)) _ e _ s h
