-- ===== src/Planning/Eligibility.antt =====
-- Which tasks are eligible, against a description without the dictionaries and reasons.
use weft_mark.Prelude.{
  ℕ, zero, suc, leb, length, Bool, true, false, ◌&&◌, ◌||◌, not, List, [], ◌∷◌, map, any, is_empty,
  select, Text, text_eq, sort_texts, set_texts, any-sort_texts, any-set_texts, ok, ◌≡◌, ◌⊎◌, ◌∙◌,
  sym, ap, refl, inl, inr, arith, In, err, task_planning_error, In-of_In-select, Bool-cases,
  if◌then◌else◌,
}
use mathlib.Core.Path.{subst}
use Prim.Native.Nat.{min}
use weft_mark.Task.{TaskIntent, TaskDependency, TaskConflict, in_progress, done, is_new}
use weft_mark.Planning.{
  TaskEligibility, TaskSelection, is_known, is_in, dependencies_of, peers, conflicts_of, unmet,
  active_conflicts, reasons_of, judge_task, evaluate, comes_before, insert, sort_values, first_of,
  next_tasks,
}

any-map :
    {A : Type 0} (p : Text → Bool) (f : A → Text) (xs : List A)
    → any p (map f xs) ≡ any (λ x. p (f x)) xs
any-map p f [] = refl
any-map p f (x ∷ xs) = ap (λ b. p (f x) || b) (any-map p f xs)

any-select :
    {A : Type 0} (p q : A → Bool) (xs : List A) → any p (select q xs) ≡ any (λ x. q x && p x) xs
any-select p q [] = refl
any-select p q (x ∷ xs) = ground (arith, any-select p q xs)

is_empty-select : (p : Text → Bool) (xs : List Text) → is_empty (select p xs) ≡ not (any p xs)
is_empty-select p [] = refl
is_empty-select p (x ∷ xs) = ground (arith, is_empty-select p xs)

any-peers :
    (p : Text → Bool) (id : Text) (rs : List TaskConflict)
    → any p (peers id rs)
      ≡ any
          (λ (r : TaskConflict).
            (text_eq r.first_task_id id && p r.second_task_id)
            || (text_eq r.second_task_id id && p r.first_task_id))
          rs
unfolding peers
any-peers p id [] = refl
any-peers p id (r ∷ rs) = elim (Bool-cases (text_eq r.first_task_id id)) [
  | inl a ↦ elim (Bool-cases (text_eq r.second_task_id id)) [
    | inl b ↦ rw a (rw b (ground (arith, any-peers p id rs)))
    | inr b ↦ rw a (rw b (ground (arith, any-peers p id rs)))
  ]
  | inr a ↦ elim (Bool-cases (text_eq r.second_task_id id)) [
    | inl b ↦ rw a (rw b (ground (arith, any-peers p id rs)))
    | inr b ↦ rw a (rw b (ground (arith, any-peers p id rs)))
  ]
]

In-map :
    {A : Type 0} {B : Type 0} (f : A → B) (y : B) (xs : List A)
    → In y (map f xs)
    → (x : A) × In x xs × (y ≡ f x)
In-map f y [] m = absurd m
In-map f y (x ∷ xs) (inl e) = (x, inl refl, e)
In-map f y (x ∷ xs) (inr m) = let (z, k, e) = In-map f y xs m in (z, inr k, e)

length-map : {A : Type 0} {B : Type 0} (f : A → B) (xs : List A) → length (map f xs) ≡ length xs
length-map f [] = refl
length-map f (x ∷ xs) = ap suc (length-map f xs)

select-map :
    {A : Type 0} {B : Type 0} (p : B → Bool) (q : A → Bool) (f : A → B)
    → ((x : A) → p (f x) ≡ q x)
    → (xs : List A) → select p (map f xs) ≡ map f (select q xs)
select-map p q f same [] = refl
select-map p q f same (x ∷ xs) =
    let rest = select-map p q f same xs in
    elim (Bool-cases (q x)) [
      | inl e ↦ rw (same x ∙ e) (rw e (ap (λ ys. f x ∷ ys) rest))
      | inr e ↦ rw (same x ∙ e) (rw e rest)
    ]

length-insert :
    (v : TaskEligibility) (ws : List TaskEligibility) → length (insert v ws) ≡ suc (length ws)
unfolding insert
length-insert v [] = refl
length-insert v (w ∷ ws) = elim (Bool-cases (comes_before w v)) [
  | inl e ↦ rw e (ap suc (length-insert v ws))
  | inr e ↦ rw e refl
]

length-sort_values : (vs : List TaskEligibility) → length (sort_values vs) ≡ length vs
unfolding sort_values
length-sort_values [] = refl
length-sort_values (v ∷ vs) = length-insert v (sort_values vs) ∙ ap suc (length-sort_values vs)

length-first_of : (n : ℕ) (vs : List TaskEligibility) → length (first_of n vs) ≡ min n (length vs)
unfolding first_of
length-first_of zero vs = omega arith
length-first_of (suc n) [] = omega arith
length-first_of (suc n) (v ∷ vs) = omega (arith, length-first_of n vs)

In-insert :
    (v w : TaskEligibility) (ws : List TaskEligibility) → In v (insert w ws) → (v ≡ w) ⊎ In v ws
unfolding insert
In-insert v w [] m = m
In-insert v w (x ∷ ws) m = either (comes_before x w) m (In-insert v w ws)
  where
    either :
        (b : Bool)
        → In v (if b then x ∷ insert w ws else w ∷ x ∷ ws)
        → (In v (insert w ws) → (v ≡ w) ⊎ In v ws)
        → (v ≡ w) ⊎ ((v ≡ x) ⊎ In v ws)
    either true (inl e) ih = inr (inl e)
    either true (inr k) ih = elim (ih k) [ inl e ↦ inl e | inr l ↦ inr (inr l) ]
    either false k ih = k

In-sort_values : (v : TaskEligibility) (vs : List TaskEligibility) → In v (sort_values vs) → In v vs
unfolding sort_values
In-sort_values v [] m = m
In-sort_values v (w ∷ vs) m = elim (In-insert v w (sort_values vs) m) [
  | inl e ↦ inl e
  | inr k ↦ inr (In-sort_values v vs k)
]

In-first_of :
    (v : TaskEligibility) (n : ℕ) (vs : List TaskEligibility) → In v (first_of n vs) → In v vs
unfolding first_of
In-first_of v zero vs m = absurd m
In-first_of v (suc n) [] m = absurd m
In-first_of v (suc n) (w ∷ vs) (inl e) = inl e
In-first_of v (suc n) (w ∷ vs) (inr m) = inr (In-first_of v n vs m)

module _ (tasks : List TaskIntent) (dependencies : List TaskDependency)
    (conflicts : List TaskConflict) where
  -- The relation makes the task wait for one that is not done.
  abbrev pub waits : Text → TaskDependency → Bool
  waits id r = text_eq r.task_id id && not (is_in done tasks r.depends_on_task_id)

  -- The relation is between the task and one in progress.
  abbrev pub collides : Text → TaskConflict → Bool
  collides id r =
      (text_eq r.first_task_id id && is_in in_progress tasks r.second_task_id)
      || (text_eq r.second_task_id id && is_in in_progress tasks r.first_task_id)

  -- The relation names a task that is not there.
  abbrev pub misses : TaskDependency → Bool
  misses r = not (is_known tasks r.task_id) || not (is_known tasks r.depends_on_task_id)

  abbrev pub misses_one : TaskConflict → Bool
  misses_one r = not (is_known tasks r.first_task_id) || not (is_known tasks r.second_task_id)

  abbrev pub is_free : TaskIntent → Bool
  is_free t =
      is_new t.state && (not (any (waits t.id) dependencies) && not (any (collides t.id) conflicts))

  unmet-empty :
      (id : Text)
      → is_empty (unmet tasks dependencies conflicts id) ≡ not (any (waits id) dependencies)
  unfolding unmet dependencies_of
  unmet-empty id =
      let is_open = λ (d : Text). not (is_in done tasks d) in
      let mine = λ (r : TaskDependency). text_eq r.task_id id in
      let name = λ (r : TaskDependency). r.depends_on_task_id in
      let names = map name (select mine dependencies) in
      is_empty-select is_open (sort_texts names)
      ∙ ap not (
          any-sort_texts is_open names
          ∙ any-map is_open name (select mine dependencies)
          ∙ any-select (λ r. is_open (name r)) mine dependencies)

  active_conflicts-empty :
      (id : Text)
      → is_empty (active_conflicts tasks dependencies conflicts id)
        ≡ not (any (collides id) conflicts)
  unfolding active_conflicts conflicts_of
  active_conflicts-empty id =
      let runs = is_in in_progress tasks in
      is_empty-select runs (sort_texts (set_texts (peers id conflicts)))
      ∙ ap not (
          any-sort_texts runs (set_texts (peers id conflicts))
          ∙ any-set_texts runs (peers id conflicts)
          ∙ any-peers runs id conflicts)

  judge_task-is_free :
      (t : TaskIntent) → (judge_task tasks dependencies conflicts t).eligible ≡ is_free t
  unfolding judge_task reasons_of
  judge_task-is_free t = ground (arith, unmet-empty t.id, active_conflicts-empty t.id)

  next_tasks-eq-ok :
      (limit : ℕ) (s : TaskSelection)
      → next_tasks tasks dependencies conflicts limit ≡ ok s
      → s.tasks
        ≡ first_of limit (
            sort_values (
              select
                (λ (v : TaskEligibility). v.eligible)
                (map (judge_task tasks dependencies conflicts) tasks)))
  unfolding next_tasks evaluate
  next_tasks-eq-ok limit s e = ground arith

  -- What `next` selects are given tasks that are free: new, waiting for no task that is not done, and in
  -- no conflict with a task in progress.
  pub next_tasks-is_free :
      (limit : ℕ) (s : TaskSelection) (v : TaskEligibility)
      → next_tasks tasks dependencies conflicts limit ≡ ok s
      → In v s.tasks
      → In v.task tasks × (is_free v.task ≡ true)
  unfolding judge_task
  next_tasks-is_free limit s v e m =
      let judged = map (judge_task tasks dependencies conflicts) tasks in
      let test = λ (v : TaskEligibility). v.eligible in
      let chosen : In v (first_of limit (sort_values (select test judged))) =
        subst (In v) (next_tasks-eq-ok limit s e) m in
      let (listed, eligible) =
        In-of_In-select test v judged (In-sort_values v _ (In-first_of v limit _ chosen)) in
      let (t, k, is) = In-map (judge_task tasks dependencies conflicts) v tasks listed in
      (rw is k, rw is (sym (judge_task-is_free t) ∙ ap test (sym is) ∙ eligible))

  -- `next` succeeds exactly with a limit from 1 to 100 and relations between known tasks only, whatever the
  -- tasks. It then considers every task, counts the tasks that are free as the eligible ones, selects as
  -- many as that count and the limit allow, and skips the tasks that are not free, in their order and
  -- each with its reasons.
  pub next_tasks-returns :
      (limit : ℕ)
      → (s : TaskSelection) × (next_tasks tasks dependencies conflicts limit ≡ (
          if (leb 1 limit && leb limit 100)
            && (not (any misses dependencies) && not (any misses_one conflicts))
          then ok s
          else err task_planning_error))
        × (s.considered ≡ length tasks)
        × (s.eligible ≡ length (select is_free tasks))
        × (length s.tasks ≡ min limit (length (select is_free tasks)))
        × (s.skipped
            ≡ map (judge_task tasks dependencies conflicts) (select (λ t. not (is_free t)) tasks))
  unfolding next_tasks evaluate
  next_tasks-returns limit =
      let judge = judge_task tasks dependencies conflicts in
      let judged = map judge tasks in
      let chosen = select (λ (v : TaskEligibility). v.eligible) judged in
      let counted : length (sort_values chosen) ≡ length (select is_free tasks) =
        length-sort_values chosen
        ∙ ap length (select-map (λ v. v.eligible) is_free judge judge_task-is_free tasks)
        ∙ length-map judge (select is_free tasks) in
      (
        record {
          considered = length judged;
          eligible = length (sort_values chosen);
          tasks = first_of limit (sort_values chosen);
          skipped = select (λ (v : TaskEligibility). not v.eligible) judged;
        },
        ground arith,
        length-map judge tasks,
        counted,
        length-first_of limit (sort_values chosen) ∙ ap (min limit) counted,
        select-map (λ v. not v.eligible) (λ t. not (is_free t)) judge
            (λ t. ap not (judge_task-is_free t)) tasks,
      )
