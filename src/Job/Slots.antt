-- ===== src/Job/Slots.antt =====
-- The slots of the semaphore that a job has taken.
use mathlib.Core.Path.{subst}
use jotify.Prelude.{
  ℕ, zero, suc, ◌+◌, ◌≡◌, refl, sym, ap, ◌∙◌, arith, Bool, true, false, String, List, [], ◌∷◌,
  Option, none, some, length, if◌then◌else◌,
}
use jotify.Prelude.Int.{ℤ, pos, ◌+ℤ◌, ◌-ℤ◌, ◌≤ℤ◌, ltb_ℤ}
use jotify.Errs.{ok, err, acquire_exceed_limit}
use jotify.Sharding.{Dst}
use jotify.Job.{
  MaxCntResourceSemaphore, new_max_cnt_resource_semaphore, acquire, release, update_max_cnt,
  Attempt, not_created, not_locked, locked, Job, generate_dlock_key, acquired, run_begin, attempted,
  run_attempt, without_one, table_end,
}

unfoldable pub new_job : ℤ → Job
unfolding new_max_cnt_resource_semaphore
new_job max_cnt = record {
  semaphore = new_max_cnt_resource_semaphore max_cnt;
  trying = none;
  loops = [];
}

-- One step of the loop of Run, of a table loop, or a raise of the limit.
pub data Step (base_key : String) : Job → Job → Type 0 where
  begins : {j : Job} (d : Dst) → j.trying ≡ none → Step base_key j (run_begin base_key d j)
  attempts : {j : Job} (a : Attempt) → Step base_key j (run_attempt a j)
  ends : {j : Job} (i : ℕ) → Step base_key j (table_end i j)
  raises :
      {j : Job} (m : ℤ)
      → j.semaphore.max_cnt ≤ℤ m
      → Step base_key j (record j { semaphore = update_max_cnt m j.semaphore })

pub data Reaches (base_key : String) (max_cnt : ℤ) : Job → Type 0 where
  new : Reaches base_key max_cnt (new_job max_cnt)
  next : {j k : Job} → Reaches base_key max_cnt j → Step base_key j k → Reaches base_key max_cnt k

abbrev tries : Option String → ℕ
tries none = 0
tries (some key) = 1

-- The table loops, and the attempt to start one more.
unfoldable pub used : Job → ℕ
used j = tries j.trying + length j.loops

-- Every slot that is taken is used, and there are no more than the limit.
pub record Fits (j : Job) : Type 0 where
  pub taken : j.semaphore.curr_cnt ≡ pos (used j)
  pub limit : pos (used j) ≤ℤ j.semaphore.max_cnt

plus_one : (n : ℕ) → pos n +ℤ pos 1 ≡ pos (suc n)
unfolding ◌+ℤ◌
plus_one n = ground arith

minus_one : (n : ℕ) → pos (suc n) -ℤ pos 1 ≡ pos n
unfolding ◌-ℤ◌
minus_one n = ground arith

room_for_one : (n : ℕ) (m : ℤ) → ltb_ℤ (pos n) m ≡ true → pos (suc n) ≤ℤ m
room_for_one n m e = ground arith

one_less : (n : ℕ) (m : ℤ) → pos (suc n) ≤ℤ m → pos n ≤ℤ m
one_less n m h = omega arith

begin-Fits :
    (base_key : String) (d : Dst) (j : Job)
    → j.trying ≡ none
    → Fits j
    → Fits (run_begin base_key d j)
unfolding run_begin acquire used
begin-Fits base_key d j idle h = branch (ltb_ℤ j.semaphore.curr_cnt j.semaphore.max_cnt) refl
  where
    none_tried : tries j.trying ≡ 0
    none_tried = ap tries idle

    branch :
        (b : Bool)
        → ltb_ℤ j.semaphore.curr_cnt j.semaphore.max_cnt ≡ b
        → Fits (
            acquired (generate_dlock_key base_key d) j (
              if b
              then (ok tt, record j.semaphore { curr_cnt = j.semaphore.curr_cnt +ℤ pos 1 })
              else (err acquire_exceed_limit, j.semaphore)))
    branch true e =
        let now_used : suc (used j) ≡ 1 + length j.loops = omega (arith, none_tried) in
        record {
          taken = ap (λ (x : ℤ). x +ℤ pos 1) h.taken ∙ plus_one (used j) ∙ ap pos now_used;
          limit =
              subst (λ (n : ℕ). pos n ≤ℤ j.semaphore.max_cnt) now_used
                (room_for_one (used j) j.semaphore.max_cnt
                  (ap (λ (x : ℤ). ltb_ℤ x j.semaphore.max_cnt) (sym h.taken) ∙ e));
        }
    branch false e = h

-- A slot that is given back where one less is used.
released-Fits :
    (j k : Job) → used j ≡ suc (used k) → k.semaphore ≡ (release j.semaphore).1 → Fits j → Fits k
unfolding release
released-Fits j k fewer same h = record {
  taken =
      ap (λ (s : MaxCntResourceSemaphore). s.curr_cnt) same
      ∙ ap (λ (x : ℤ). x -ℤ pos 1) (h.taken ∙ ap pos fewer)
      ∙ minus_one (used k);
  limit =
      subst (λ (s : MaxCntResourceSemaphore). pos (used k) ≤ℤ s.max_cnt) (sym same)
        (one_less (used k) j.semaphore.max_cnt
          (subst (λ (n : ℕ). pos n ≤ℤ j.semaphore.max_cnt) fewer h.limit));
}

attempted-Fits :
    (a : Attempt) (key : String) (j : Job) → j.trying ≡ some key → Fits j → Fits (attempted a key j)
unfolding attempted used
attempted-Fits not_created key j e h = released-Fits j _ (omega (arith, ap tries e)) refl h
attempted-Fits not_locked key j e h = released-Fits j _ (omega (arith, ap tries e)) refl h
attempted-Fits locked key j e h =
    let same : used j ≡ 0 + suc (length j.loops) = omega (arith, ap tries e) in
    record {
      taken = h.taken ∙ ap pos same;
      limit = subst (λ (n : ℕ). pos n ≤ℤ j.semaphore.max_cnt) same h.limit;
    }

attempt-Fits : (a : Attempt) (j : Job) → Fits j → Fits (run_attempt a j)
unfolding run_attempt
attempt-Fits a j h = branch j.trying refl
  where
    branch :
        (o : Option String)
        → j.trying ≡ o
        → Fits (elim o [ none ↦ j | some key ↦ attempted a key j ])
    branch none e = h
    branch (some key) e = attempted-Fits a key j e h

abbrev size : Option (List String) → ℕ
size none = 0
size (some l) = length l

length-without_one :
    (i : ℕ) (l rest : List String) → without_one i l ≡ some rest → length l ≡ suc (length rest)
length-without_one i [] rest e = ground (arith, e)
length-without_one zero (x ∷ l) rest e = ap (λ (o : Option (List String)). suc (size o)) e
length-without_one (suc i) (x ∷ l) rest e =
    branch (without_one i l) refl e
      (λ (k : List String) (f : without_one i l ≡ some k). length-without_one i l k f)
  where
    branch :
        (o : Option (List String))
        → without_one i l ≡ o
        → elim o [ none ↦ none | some k ↦ some (x ∷ k) ] ≡ some rest
        → ((k : List String) → without_one i l ≡ some k → length l ≡ suc (length k))
        → suc (length l) ≡ suc (length rest)
    branch none f g shorter = ground (arith, g)
    branch (some k) f g shorter = ap suc (shorter k f ∙ ap size g)

end-Fits : (i : ℕ) (j : Job) → Fits j → Fits (table_end i j)
unfolding table_end used
end-Fits i j h = branch (without_one i j.loops) refl
  where
    branch :
        (o : Option (List String))
        → without_one i j.loops ≡ o
        → Fits (elim o [
          | none ↦ j
          | some rest ↦ record j { semaphore = (release j.semaphore).1; loops = rest }
        ])
    branch none e = h
    branch (some rest) e =
        released-Fits j _ (omega (arith, length-without_one i j.loops rest e)) refl h

Step-Fits : (base_key : String) (j k : Job) → Step base_key j k → Fits j → Fits k
unfolding update_max_cnt used
Step-Fits base_key j _ (Step.begins d idle) h = begin-Fits base_key d j idle h
Step-Fits base_key j _ (Step.attempts a) h = attempt-Fits a j h
Step-Fits base_key j _ (Step.ends i) h = end-Fits i j h
Step-Fits base_key j _ (Step.raises m above) h = record {
  taken = h.taken;
  limit = omega (arith, h.limit, above);
}

-- In every state that the loop of Run and the table loops reach by their steps, however these are
-- interleaved and whatever the lock answers, and where the limit is only raised, the semaphore
-- counts exactly the table loops that run and the attempt to start one, and these are at most the
-- limit: no slot is lost or given back twice.
pub Reaches-Fits :
    (base_key : String) (max_cnt : ℤ) (j : Job)
    → pos 0 ≤ℤ max_cnt
    → Reaches base_key max_cnt j
    → Fits j
unfolding new_job new_max_cnt_resource_semaphore used
Reaches-Fits base_key max_cnt _ positive Reaches.new = record {
  taken = ap pos (omega arith);
  limit = omega arith;
}
Reaches-Fits base_key max_cnt k positive (Reaches.next {j} before step) =
    Step-Fits base_key j k step (Reaches-Fits base_key max_cnt j positive before)
