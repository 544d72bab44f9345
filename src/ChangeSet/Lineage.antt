-- ===== src/ChangeSet/Lineage.antt =====
-- The lineage of a change set: its events form one chain from the planned base, in order of time.
use weft_mark.Prelude.{
  ℕ, ◌≤◌, List, [], ◌∷◌, ◌++◌, Option, none, some, Text, or_text, DateTime, or_now, ok, ◌≡◌, refl,
  sym, arith,
}
use weft_mark.ChangeSet.{
  ChangeSet, ChangeSetState, LineageEvent, LineageEventKind, plan, record_lineage, advance_head,
  move_branch, rebase, activated, active,
}
use weft_mark.ChangeSet.Outcomes.{
  IsTimely, recorded, amended, post_init-eq-ok, record_lineage-eq-ok, activate-eq-ok,
  transition-eq-ok, amend_scope-eq-ok,
}
use weft_mark.ChangeSet.History.{
  Step, by_activate, by_transition, by_advance, by_move, by_rebase, by_amend, Reach, here, next,
}

-- Each event starts from the base, head and branch that the one before it left, and the last one
-- leaves the given ones.
abbrev pub IsChain :
    (base head branch : Text) → List LineageEvent → (base' head' branch' : Text) → Type 0
IsChain b h r [] b' h' r' = (b ≡ b') × (h ≡ h') × (r ≡ r')
IsChain b h r (e ∷ es) b' h' r' =
    (e.previous_base_sha ≡ b)
    × (e.previous_head_sha ≡ h)
    × (e.previous_branch ≡ r)
    × IsChain e.base_sha e.head_sha e.branch es b' h' r'

-- The events do not go back in time, from a first instant to a last.
abbrev pub IsChronological : ℕ → List LineageEvent → ℕ → Type 0
IsChronological t [] u = t ≤ u
IsChronological t (e ∷ es) u =
    (t ≤ e.occurred_at.instant) × IsChronological e.occurred_at.instant es u

IsChain-snoc :
    (b h r : Text) (es : List LineageEvent) (e : LineageEvent)
    → IsChain b h r es e.previous_base_sha e.previous_head_sha e.previous_branch
    → IsChain b h r (es ++ e ∷ []) e.base_sha e.head_sha e.branch
IsChain-snoc b h r [] e c = (sym c.0, sym c.1, sym c.2, (refl, refl, refl))
IsChain-snoc b h r (f ∷ fs) e c =
    (c.0, c.1, c.2, IsChain-snoc f.base_sha f.head_sha f.branch fs e c.3)

IsChronological-snoc :
    (t u : ℕ) (es : List LineageEvent) (e : LineageEvent)
    → IsChronological t es u
    → u ≤ e.occurred_at.instant
    → IsChronological t (es ++ e ∷ []) e.occurred_at.instant
IsChronological-snoc t u [] e c h = omega arith
IsChronological-snoc t u (f ∷ fs) e c h = (c.0, IsChronological-snoc _ u fs e c.1 h)

IsChronological-le :
    (t u v : ℕ) (es : List LineageEvent) → IsChronological t es u → u ≤ v → IsChronological t es v
IsChronological-le t u v [] c h = omega arith
IsChronological-le t u v (f ∷ fs) c h = (c.0, IsChronological-le _ u v fs c.1 h)

-- What a change set has kept of the planned one, `o`.
pub record IsTraced (o c : ChangeSet) : Type 0 where
  pub chain : IsChain o.base_sha o.head_sha o.branch c.lineage c.base_sha c.head_sha c.branch
  pub times : IsChronological o.created_at.instant c.lineage c.updated_at.instant
  pub id : c.id ≡ o.id
  pub goal : c.goal ≡ o.goal
  pub repository_id : c.repository_id ≡ o.repository_id
  pub worktree : c.worktree ≡ o.worktree
  pub created_at : c.created_at ≡ o.created_at

module _ (o c : ChangeSet) (h : IsTraced o c) (now : DateTime) (at : Option DateTime)
    (timely : IsTimely now at c) where
  recorded-IsTraced :
      (kind : LineageEventKind) (base_sha head_sha branch : Option Text)
      (state : Option ChangeSetState)
      → IsTraced o (recorded kind base_sha head_sha branch state (or_now at now) c)
  recorded-IsTraced kind base_sha head_sha branch state = record {
    chain = IsChain-snoc _ _ _ c.lineage _ h.chain;
    times = IsChronological-snoc _ _ c.lineage _ h.times timely.later;
    id = h.id;
    goal = h.goal;
    repository_id = h.repository_id;
    worktree = h.worktree;
    created_at = h.created_at;
  }

  transition-IsTraced :
      (state : ChangeSetState) → IsTraced o (record c { state = state; updated_at = or_now at now })
  transition-IsTraced state = record {
    chain = h.chain;
    times = IsChronological-le _ _ _ c.lineage h.times timely.later;
    id = h.id;
    goal = h.goal;
    repository_id = h.repository_id;
    worktree = h.worktree;
    created_at = h.created_at;
  }

  amended-IsTraced : (new : List Text) (reason : Text) → IsTraced o (amended now at c new reason)
  amended-IsTraced new reason = record {
    chain = h.chain;
    times = IsChronological-le _ _ _ c.lineage h.times timely.later;
    id = h.id;
    goal = h.goal;
    repository_id = h.repository_id;
    worktree = h.worktree;
    created_at = h.created_at;
  }

module _ (o c : ChangeSet) (h : IsTraced o c) where
  lineage-IsTraced :
      (now : DateTime) (at : Option DateTime) (kind : LineageEventKind)
      (base_sha head_sha branch : Option Text) (state : Option ChangeSetState) (d : ChangeSet)
      → record_lineage now kind base_sha head_sha branch state at c ≡ ok d
      → IsTraced o d
  lineage-IsTraced now at kind base_sha head_sha branch state d e =
      let (timely, _, is) = record_lineage-eq-ok now at c kind base_sha head_sha branch state d e in
      rw is (recorded-IsTraced o c h now at timely kind base_sha head_sha branch state)

  Step-IsTraced : {d : ChangeSet} → Step c d → IsTraced o d
  unfolding advance_head move_branch rebase
  Step-IsTraced {d} (by_activate now at head_sha e) =
      let (timely, _, is) = activate-eq-ok now at c head_sha d e in
      rw is (
        recorded-IsTraced o c h now at timely activated none (some (or_text head_sha c.head_sha))
          none (some active))
  Step-IsTraced {d} (by_transition now at state e) =
      let (timely, _, is) = transition-eq-ok now at c state d e in
      rw is (transition-IsTraced o c h now at timely state)
  Step-IsTraced {d} (by_advance now at head_sha e) = lineage-IsTraced now at _ _ _ _ _ d e
  Step-IsTraced {d} (by_move now at branch head_sha e) = lineage-IsTraced now at _ _ _ _ _ d e
  Step-IsTraced {d} (by_rebase now at base_sha head_sha e) = lineage-IsTraced now at _ _ _ _ _ d e
  Step-IsTraced {d} (by_amend now at new reason e) =
      let (timely, _, _, is) = amend_scope-eq-ok now at c new reason d e in
      rw is (amended-IsTraced o c h now at timely new reason)

Reach-IsTraced : {o c : ChangeSet} → IsTraced o o → Reach o c → IsTraced o c
Reach-IsTraced h here = h
Reach-IsTraced h (next r s) = Step-IsTraced _ _ (Reach-IsTraced h r) s

-- From a planned change set, after any successful operations: the lineage events form one chain from
-- the planned base, head and branch to the present ones, in the order of time between the creation
-- and the last update; and the identity, goal, repository, worktree and creation time are unchanged.
pub Reach-plan-IsTraced :
    (now : DateTime) (id goal repository_id base_sha branch worktree : Text) (scopes : List Text)
    (at : Option DateTime) (o c : ChangeSet)
    → plan now id goal repository_id base_sha branch worktree scopes at ≡ ok o
    → Reach o c
    → IsTraced o c
unfolding plan
Reach-plan-IsTraced now id goal repository_id base_sha branch worktree scopes at o c e r =
    let is = post_init-eq-ok _ o e in
    Reach-IsTraced
      (rw is (record {
        chain = (refl, refl, refl);
        times = omega arith;
        id = refl;
        goal = refl;
        repository_id = refl;
        worktree = refl;
        created_at = refl;
      }))
      r
