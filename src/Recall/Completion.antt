-- ===== src/Recall/Completion.antt =====
-- A recall that is completed has no unit that waits for a decision.
use mrp_django.Inventory.Model.{type_eq}
use mrp_django.Prelude.{
  ==_iff, Bool, Bool-cases, List, Option, Result, [], ap, arith, err, false, inl, inr, insert,
  lookup, lookup-insert, nat_eq, none, not, ok, option_eq, pair_eq, refl, roll_back, some, text_eq,
  true, ℕ, ◌==◌, ◌>>=◌, ◌||◌, ◌∙◌, ◌∷◌, ◌≡◌, ◌≢◌,
}
use mrp_django.Recall.Blocking.{Writes, case_at-ok, execute_recall-Writes}
use mrp_django.Recall.Service.{
  AffectedUnit, Db, Error, Status, add_event, approve_found, approve_recall, approved, block_unit,
  block_units, case_at, complete_found, complete_recall, completed, execute_recall, executing,
  has_undecided, save_case,
}

unfoldable pub is_completed : Option Status → Bool
is_completed none = false
is_completed (some completed) = true
is_completed (some _) = false

unfoldable pub IsSound : Db → Type 0
IsSound db =
    (pk : ℕ)
    → (not (is_completed (lookup pk db.cases)) || not (has_undecided pk db.affected_units)) ≡ true

has_undecided-block_units :
    (pk k : ℕ) (us : List AffectedUnit)
    → pk ≢ k
    → has_undecided k (block_units pk us) ≡ has_undecided k us
unfolding has_undecided block_units block_unit
has_undecided-block_units pk k [] ne = refl
has_undecided-block_units pk k (u ∷ us) ne = ground (
  arith,
  ne,
  ==_iff u.recall_case pk,
  ==_iff u.recall_case k,
  has_undecided-block_units pk k us ne,
)

-- One case gets a new status, and the units of the others are as they were.
write-IsSound :
    (pk : ℕ) (s : Status) (db db' : Db)
    → db'.cases ≡ insert pk s db.cases
    → ((k : ℕ) → pk ≢ k → has_undecided k db'.affected_units ≡ has_undecided k db.affected_units)
    → (not (is_completed (some s)) || not (has_undecided pk db'.affected_units)) ≡ true
    → IsSound db
    → IsSound db'
unfolding IsSound is_completed
write-IsSound pk s db db' cases others own h k = elim (Bool-cases (pk == k)) [
  | inl t ↦
      let same : pk ≡ k = (==_iff pk k).0 t in
      rw (cases, lookup-insert pk k s db.cases, t, ← same) own
  | inr f ↦
      rw (cases, lookup-insert pk k s db.cases, f, others k (λ q. cc (f, (==_iff pk k).1 q))) (h k)
]

approve-IsSound : (pk : ℕ) (db : Db) → IsSound db → IsSound (approve_recall pk db).1
unfolding approve_recall approve_found save_case add_event is_completed
approve-IsSound pk db h = by_result ((case_at pk >>= approve_found pk) db) refl
  where
    by_result :
        (p : Result Error (Unit {0}) × Db)
        → (case_at pk >>= approve_found pk) db ≡ p
        → IsSound (roll_back db p).1
    by_result (err x, db') e = h
    by_result (ok tt, db') e =
        let (s, found, done) = case_at-ok pk (approve_found pk) db db' e in
        let wrote : db' ≡ add_event pk "recall.approved" "approved" (save_case pk approved db) =
          ground arith in
        write-IsSound pk approved db db' (ap (λ (d : Db). d.cases) wrote)
          (λ k ne. ap (λ (d : Db). has_undecided k d.affected_units) wrote) refl h

execute-IsSound : (pk : ℕ) (db : Db) → IsSound db → IsSound (execute_recall pk db).1
unfolding is_completed
execute-IsSound pk db h = by_result (execute_recall pk db) (execute_recall-Writes pk db)
  where
    by_result : (p : Result Error (Unit {0}) × Db) → Writes pk db p → IsSound p.1
    by_result (err x, db') same = rw same h
    by_result (ok tt, db') x =
        write-IsSound pk executing db db' x.cases
          (λ k ne.
            ap (has_undecided k) x.units ∙ has_undecided-block_units pk k db.affected_units ne)
          refl h

complete_found-ok :
    (pk : ℕ) (s : Status) (db db' : Db)
    → complete_found pk s db ≡ (ok tt, db')
    → (has_undecided pk db.affected_units ≡ false)
      × (db' ≡ add_event pk "recall.completed" "completed" (save_case pk completed db))
unfolding complete_found
complete_found-ok pk s db db' e = (ground arith, ground arith)

complete-IsSound : (pk : ℕ) (db : Db) → IsSound db → IsSound (complete_recall pk db).1
unfolding complete_recall save_case add_event is_completed
complete-IsSound pk db h = by_result ((case_at pk >>= complete_found pk) db) refl
  where
    by_result :
        (p : Result Error (Unit {0}) × Db)
        → (case_at pk >>= complete_found pk) db ≡ p
        → IsSound (roll_back db p).1
    by_result (err x, db') e = h
    by_result (ok tt, db') e =
        let (s, found, done) = case_at-ok pk (complete_found pk) db db' e in
        let (decided, wrote) = complete_found-ok pk s db db' done in
        let units = ap (λ (d : Db). d.affected_units) wrote in
        write-IsSound pk completed db db' (ap (λ (d : Db). d.cases) wrote)
          (λ k ne. ap (has_undecided k) units) (rw (units, decided) refl) h

-- One call of the service.
pub data Call : Type 0 where
  approve execute complete : ℕ → Call

unfoldable pub step : Call → Db → Db
step (approve pk) db = (approve_recall pk db).1
step (execute pk) db = (execute_recall pk db).1
step (complete pk) db = (complete_recall pk db).1

unfoldable pub recall : List Call → Db → Db
recall [] db = db
recall (c ∷ cs) db = recall cs (step c db)

step-IsSound : (c : Call) (db : Db) → IsSound db → IsSound (step c db)
unfolding step
step-IsSound (approve pk) db h = approve-IsSound pk db h
step-IsSound (execute pk) db h = execute-IsSound pk db h
step-IsSound (complete pk) db h = complete-IsSound pk db h

-- If no completed recall has a unit that is pending or only blocked, this still holds after any
-- sequence of approvals, executions and completions, refused ones included.
pub recall-IsSound : (cs : List Call) (db : Db) → IsSound db → IsSound (recall cs db)
unfolding recall
recall-IsSound [] db h = h
recall-IsSound (c ∷ cs) db h = recall-IsSound cs (step c db) (step-IsSound c db h)
