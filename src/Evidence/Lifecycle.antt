-- ===== src/Evidence/Lifecycle.antt =====
-- The life of an evidence record: it is short, and its verdict is given once.
use weft_mark.Prelude.{
  ℕ, zero, suc, ◌+◌, ◌≤◌, ◌<◌, Bool, true, false, Option, some, Text, DateTime, or_now, ok, ◌≡◌,
  ◌⊎◌, inl, inr, refl, ◌∙◌, arith,
}
use weft_mark.Evidence.{
  Evidence, EvidenceState, declared, running, passed, failed, unavailable, stale, superseded,
  is_allowed, start, pass, fail, mark_unavailable, mark_stale, supersede,
}
use weft_mark.Evidence.Outcomes.{
  IsAdmitted, completed, start-eq-ok, pass-eq-ok, fail-eq-ok, mark_unavailable-eq-ok,
  mark_stale-eq-ok, supersede-eq-ok,
}

-- One successful operation of evidence.py.
pub data Step (e f : Evidence) : Type 0 where
  by_start : (now : DateTime) (at : Option DateTime) → start now at e ≡ ok f → Step e f
  by_pass :
      (now : DateTime) (at : Option DateTime) (detail : Option Text)
      → pass now detail at e ≡ ok f
      → Step e f
  by_fail :
      (now : DateTime) (at : Option DateTime) (detail : Text)
      → fail now detail at e ≡ ok f
      → Step e f
  by_unavailable :
      (now : DateTime) (at : Option DateTime) (reason : Text)
      → mark_unavailable now reason at e ≡ ok f
      → Step e f
  by_stale :
      (now : DateTime) (at : Option DateTime) (commit environment : Option Text)
      → mark_stale now commit environment at e ≡ ok f
      → Step e f
  by_supersede : (now : DateTime) (at : Option DateTime) → supersede now at e ≡ ok f → Step e f

-- So many successful operations lead from one record to another.
pub data Reach (e : Evidence) : ℕ → Evidence → Type 0 where
  here : Reach e zero e
  next : {n : ℕ} {f g : Evidence} → Reach e n f → Step f g → Reach e (suc n) g

abbrev pub is_settled : EvidenceState → Bool
is_settled declared = false
is_settled running = false
is_settled _ = true

-- What a step does to a record: the table allows it, time does not go back, and the binding is kept; a
-- settled record keeps its detail and completion time and becomes stale or superseded.
record IsStep (e f : Evidence) : Type 0 where
  legal : is_allowed e.state f.state ≡ true
  later : e.updated_at.instant ≤ f.updated_at.instant
  bound : f.bound_commit_sha ≡ e.bound_commit_sha
  environment : f.environment ≡ e.environment
  detail : is_settled e.state ≡ true → f.detail ≡ e.detail
  completed_at : is_settled e.state ≡ true → f.completed_at ≡ e.completed_at

settled_starts : (s : EvidenceState) → is_allowed s running ≡ true → is_settled s ≡ false
unfolding is_allowed
settled_starts s h = ground arith

settled_passes : (s : EvidenceState) → is_allowed s passed ≡ true → is_settled s ≡ false
unfolding is_allowed
settled_passes s h = ground arith

settled_fails : (s : EvidenceState) → is_allowed s failed ≡ true → is_settled s ≡ false
unfolding is_allowed
settled_fails s h = ground arith

settled_lapses : (s : EvidenceState) → is_allowed s unavailable ≡ true → is_settled s ≡ false
unfolding is_allowed
settled_lapses s h = ground arith

completed-IsStep :
    (now : DateTime) (at : Option DateTime) (e : Evidence) (verdict : EvidenceState)
    (detail : Option Text)
    → IsAdmitted now at e verdict
    → is_settled e.state ≡ false
    → IsStep e (completed (or_now at now) e verdict detail)
completed-IsStep now at e verdict detail h new = record {
  legal = h.legal;
  later = h.later;
  bound = refl;
  environment = refl;
  detail = λ s. cc;
  completed_at = λ s. cc;
}

Step-IsStep : {e f : Evidence} → Step e f → IsStep e f
Step-IsStep {e} {f} (by_start now at s) =
    let (h, is) = start-eq-ok now at e f s in
    let new = settled_starts e.state h.legal in
    rw is (record {
      legal = h.legal;
      later = h.later;
      bound = refl;
      environment = refl;
      detail = λ _. cc;
      completed_at = λ _. cc;
    })
Step-IsStep {e} {f} (by_pass now at detail s) =
    let (h, is) = pass-eq-ok now at e f detail s in
    rw is (completed-IsStep now at e passed detail h (settled_passes e.state h.legal))
Step-IsStep {e} {f} (by_fail now at detail s) =
    let (h, is) = fail-eq-ok now at e f detail s in
    rw is (completed-IsStep now at e failed (some detail) h (settled_fails e.state h.legal))
Step-IsStep {e} {f} (by_unavailable now at reason s) =
    let (h, is) = mark_unavailable-eq-ok now at e f reason s in
    rw is (completed-IsStep now at e unavailable (some reason) h (settled_lapses e.state h.legal))
Step-IsStep {e} {f} (by_stale now at commit environment s) =
    let (h, _, is) = mark_stale-eq-ok now at e f commit environment s in
    rw is (record {
      legal = h.legal;
      later = h.later;
      bound = refl;
      environment = refl;
      detail = λ _. refl;
      completed_at = λ _. refl;
    })
Step-IsStep {e} {f} (by_supersede now at s) =
    let (h, is) = supersede-eq-ok now at e f s in
    rw is (record {
      legal = h.legal;
      later = h.later;
      bound = refl;
      environment = refl;
      detail = λ _. refl;
      completed_at = λ _. refl;
    })

-- Every allowed transition climbs.
abbrev rank : EvidenceState → ℕ
rank declared = 0
rank running = 1
rank stale = 3
rank superseded = 4
rank _ = 2

is_allowed-rank : (s t : EvidenceState) → is_allowed s t ≡ true → rank s < rank t
unfolding is_allowed
is_allowed-rank s t h = ground arith

Reach-rank : {e f : Evidence} {n : ℕ} → Reach e n f → rank e.state + n ≤ rank f.state
Reach-rank {e} here = omega arith
Reach-rank {e} {f} (next {f = d} r s) =
    omega (arith, Reach-rank r, is_allowed-rank d.state f.state (Step-IsStep s).legal)

rank-le : (s : EvidenceState) → rank s ≤ 4
rank-le s = ground arith

-- At most four operations on an evidence record succeed, one after another, whatever they are.
pub Reach-le-four : (e f : Evidence) (n : ℕ) → Reach e n f → n ≤ 4
Reach-le-four e f n r = omega (arith, Reach-rank r, rank-le f.state)

lapses :
    (s t : EvidenceState)
    → is_settled s ≡ true
    → is_allowed s t ≡ true
    → (t ≡ stale) ⊎ (t ≡ superseded)
unfolding is_allowed
lapses s t h a = ground arith

-- What a settled record keeps.
pub record IsKept (e f : Evidence) : Type 0 where
  pub detail : f.detail ≡ e.detail
  pub completed_at : f.completed_at ≡ e.completed_at
  pub bound : f.bound_commit_sha ≡ e.bound_commit_sha
  pub environment : f.environment ≡ e.environment

-- Once a record has passed, failed or become unavailable, stale or superseded, no operations change its
-- detail, completion time, bound commit or environment, and its state is the same or it has
-- become stale or superseded: a verdict is never replaced by another.
pub verdict-IsKept :
    (e f : Evidence) (n : ℕ)
    → is_settled e.state ≡ true
    → Reach e n f
    → IsKept e f × ((f.state ≡ e.state) ⊎ ((f.state ≡ stale) ⊎ (f.state ≡ superseded)))
verdict-IsKept e f n h here =
    (record { detail = refl; completed_at = refl; bound = refl; environment = refl }, inl refl)
verdict-IsKept e f n h (next {n = k} {f = d} r s) =
    let (kept, state_cases) = verdict-IsKept e d k h r in
    let i = Step-IsStep s in
    let settled : is_settled d.state ≡ true = ground arith in
    (
      record {
        detail = i.detail settled ∙ kept.detail;
        completed_at = i.completed_at settled ∙ kept.completed_at;
        bound = i.bound ∙ kept.bound;
        environment = i.environment ∙ kept.environment;
      },
      inr (lapses d.state f.state settled i.legal),
    )
