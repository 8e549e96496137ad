-- ===== src/Send/Groups.antt =====
-- How BatchAsyncSend groups a batch, and which batches it accepts.
use mathlib.Core.List.{Memᴰ}
use text.Mathlib.Text.{◌==◌}
use text.Mathlib.TextEquality.{eq_iff}
use jotify.Prelude.{
  ℕ, ◌≡◌, refl, sym, ap, ◌∙◌, arith, Bool, true, false, String, List, [], ◌∷◌, ◌++◌, if◌then◌else◌,
  length, suc,
}
use jotify.Errs.{Error, Result, ok, err}
use jotify.Snowflake.{Generator, next_id}
use jotify.Domain.{SendResult}
use jotify.Domain.Time.{Time}
use jotify.Domain.Notification.{Notification, validate}
use jotify.Send.Batch.{
  add_to_group, group_by_strategy, id_after, if_valid, ids_of_valid, ids_if_sent, sent_groups,
  batch_async_send,
}

-- The group of a strategy, empty where there is none.
unfoldable pub group_of : String → List (String × List Notification) → List Notification
group_of k [] = []
group_of k ((j, group) ∷ groups) = let rest = group_of k groups in if j == k then group else rest

-- The notifications of a strategy, in their order.
unfoldable pub with_strategy : String → List Notification → List Notification
with_strategy k [] = []
with_strategy k (n ∷ ns) =
    let rest = with_strategy k ns in if n.strategy_config.strategy == k then n ∷ rest else rest

abbrev alone : String → Notification → List Notification
alone k n = if n.strategy_config.strategy == k then n ∷ [] else []

append_nil : (l : List Notification) → l ++ [] ≡ l
append_nil [] = refl
append_nil (x ∷ xs) = ap (λ (l : List Notification). x ∷ l) (append_nil xs)

append_assoc : (a b c : List Notification) → (a ++ b) ++ c ≡ a ++ (b ++ c)
append_assoc [] b c = refl
append_assoc (x ∷ a) b c = ap (λ (l : List Notification). x ∷ l) (append_assoc a b c)

same_key :
    (b c : Bool) (group other : List Notification) (n : Notification)
    → b ≡ c
    → (if b then group ++ n ∷ [] else other)
      ≡ (if b then group else other) ++ (if c then n ∷ [] else [])
same_key true true group other n e = refl
same_key false false group other n e = sym (append_nil other)
same_key true false group other n e = ground arith
same_key false true group other n e = ground arith

other_key :
    (b c : Bool) (group other rest : List Notification) (n : Notification)
    → (b ≡ true → c ≡ false)
    → rest ≡ other ++ (if c then n ∷ [] else [])
    → (if b then group else rest) ≡ (if b then group else other) ++ (if c then n ∷ [] else [])
other_key true true group other rest n d h = ground (arith, d refl)
other_key true false group other rest n d h = sym (append_nil group)
other_key false c group other rest n d h = h

differ : (j t k : String) → (j == t) ≡ false → (j == k) ≡ true → (t == k) ≡ false
differ j t k e f = ground (arith, eq_iff j t, eq_iff j k, eq_iff t k)

add_branch :
    (k j : String) (n : Notification) (group : List Notification)
    (groups rest : List (String × List Notification)) (b : Bool)
    → (j == n.strategy_config.strategy) ≡ b
    → group_of k rest ≡ group_of k groups ++ alone k n
    → group_of k (if b then (j, group ++ n ∷ []) ∷ groups else (j, group) ∷ rest)
      ≡ group_of k ((j, group) ∷ groups) ++ alone k n
unfolding group_of
add_branch k j n group groups rest true e h =
    same_key (j == k) (n.strategy_config.strategy == k) group (group_of k groups) n
      (ap (λ (t : String). t == k) ((eq_iff _ _).0 e))
add_branch k j n group groups rest false e h =
    other_key (j == k) (n.strategy_config.strategy == k) group (group_of k groups) _ n
      (differ j n.strategy_config.strategy k e) h

group_of-add_to_group :
    (k : String) (n : Notification) (groups : List (String × List Notification))
    → group_of k (add_to_group n groups) ≡ group_of k groups ++ alone k n
unfolding add_to_group group_of
group_of-add_to_group k n [] = new (n.strategy_config.strategy == k)
  where
    new : (b : Bool) → (if b then n ∷ [] else []) ≡ [] ++ (if b then n ∷ [] else [])
    new b = refl
group_of-add_to_group k n ((j, group) ∷ groups) =
    add_branch k j n group groups (add_to_group n groups) (j == n.strategy_config.strategy) refl
      (group_of-add_to_group k n groups)

with_strategy-cons :
    (k : String) (n : Notification) (ns : List Notification)
    → with_strategy k (n ∷ ns) ≡ alone k n ++ with_strategy k ns
unfolding with_strategy
with_strategy-cons k n ns = branch (n.strategy_config.strategy == k) (with_strategy k ns)
  where
    branch :
        (b : Bool) (rest : List Notification)
        → (if b then n ∷ rest else rest) ≡ (if b then n ∷ [] else []) ++ rest
    branch true rest = refl
    branch false rest = refl

grouped :
    (k : String) (ns : List Notification) (groups : List (String × List Notification))
    → group_of k (group_by_strategy ns groups) ≡ group_of k groups ++ with_strategy k ns
unfolding group_by_strategy with_strategy
grouped k [] groups = sym (append_nil (group_of k groups))
grouped k (n ∷ ns) groups =
    grouped k ns (add_to_group n groups)
    ∙ ap (λ (l : List Notification). l ++ with_strategy k ns) (group_of-add_to_group k n groups)
    ∙ append_assoc (group_of k groups) (alone k n) (with_strategy k ns)
    ∙ ap (λ (l : List Notification). group_of k groups ++ l) (sym (with_strategy-cons k n ns))

-- The group of a strategy has exactly the notifications of the batch with that strategy, as they
-- came and in their order: those with the immediate strategy stay immediate.
group_by_strategy-with_strategy :
    (k : String) (ns : List Notification)
    → group_of k (group_by_strategy ns []) ≡ with_strategy k ns
unfolding group_of
group_by_strategy-with_strategy k ns = grouped k ns []

-- What is known of a batch whose ids are made.
pub data Accepts (now : Time) (ns : List Notification) : Result (List ℕ) → Type 0 where
  refused : (e : Error) → Accepts now ns (err e)
  accepted :
      {ids : List ℕ}
      → length ids ≡ length ns
      → ((n : Notification) → Memᴰ n ns → validate now n ≡ ok tt)
      → Accepts now ns (ok ids)

module _ (sum64 : String → ℕ) (clock : Generator → ℕ) {S : Type 0}
    (strategy : List Notification → S → Result (List SendResult) × S) where
  id_after-Accepts :
      (now : Time) (n : Notification) (ns : List Notification) (id : ℕ)
      (x : Result (List ℕ) × Generator)
      → validate now n ≡ ok tt
      → Accepts now ns x.0
      → Accepts now (n ∷ ns) (id_after sum64 clock strategy id x).0
  id_after-Accepts now n ns id (_, g) v (refused e) = refused e
  id_after-Accepts now n ns id (_, g) v (accepted e all) = accepted (ap suc e) member
    where
      member : (m : Notification) → Memᴰ m (n ∷ ns) → validate now m ≡ ok tt
      member m (Memᴰ.head p) = ap (validate now) p ∙ v
      member m (Memᴰ.tail p) = all m p

  ids-Accepts :
      (now : Time) (ns : List Notification) (g : Generator)
      → Accepts now ns (ids_of_valid sum64 clock strategy now ns g).0
  unfolding ids_of_valid
  ids-Accepts now [] g = accepted refl (λ n m. elim m [ ])
  ids-Accepts now (n ∷ ns) g =
      let x = next_id sum64 g (clock g) n.biz_id n.biz_key in
      branch (validate now n) refl x.1 (ids_of_valid sum64 clock strategy now ns x.0)
        (ids-Accepts now ns x.0)
    where
      branch :
          (v : Result (Unit {0}))
          → validate now n ≡ v
          → (id : ℕ) (x : Result (List ℕ) × Generator) → Accepts now ns x.0
          → Accepts now
              (n ∷ ns)
              (if_valid sum64 clock strategy v g (id_after sum64 clock strategy id x)).0
      branch (err e) v id x h = refused e
      branch (ok _) v id x h = id_after-Accepts now n ns id x v h

  if_sent-Accepts :
      (now : Time) (ns : List Notification) (ids : List ℕ) (r : Result (Unit {0}))
      → Accepts now ns (ok ids)
      → Accepts now ns (ids_if_sent sum64 clock strategy ids r)
  if_sent-Accepts now ns ids (err e) h = refused e
  if_sent-Accepts now ns ids (ok _) h = h

  sent-Accepts :
      (now : Time) (ns : List Notification) (x : Result (List ℕ) × Generator) (s : S)
      → Accepts now ns x.0
      → Accepts now ns (sent_groups sum64 clock strategy ns x s).0
  unfolding sent_groups
  sent-Accepts now ns (_, g) s (refused e) = refused e
  sent-Accepts now ns (_, g) s (accepted e all) = if_sent-Accepts now ns _ _ (accepted e all)

  -- BatchAsyncSend returns an error, or one id for each notification of a batch of which every
  -- notification is valid.
  pub batch_async_send-Accepts :
      (now : Time) (ns : List Notification) (g : Generator) (s : S)
      → Accepts now ns (batch_async_send sum64 clock strategy now ns (g, s)).0
  unfolding batch_async_send
  batch_async_send-Accepts now [] g s = refused _
  batch_async_send-Accepts now (n ∷ ns) g s =
      sent-Accepts now (n ∷ ns) (ids_of_valid sum64 clock strategy now (n ∷ ns) g) s
        (ids-Accepts now (n ∷ ns) g)
