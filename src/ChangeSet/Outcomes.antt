-- ===== src/ChangeSet/Outcomes.antt =====
-- What a successful operation on a change set returns, field by field, with `post_init` shut.
use weft_mark.Prelude.{
  true, false, not, Option, none, some, List, [], ◌∷◌, ◌++◌, select, Text, or_text, mem_text,
  repeats, strip, sort_texts, DateTime, or_now, ok, ◌≡◌, arith, ◌≤◌,
}
use weft_mark.ChangeSet.{
  ChangeSet, ChangeSetState, LineageEventKind, post_init, record_lineage, activate, transition,
  amend_scope, or_state, is_allowed, is_misplaced, is_lineage_state, activated, active, planned,
  operation_time,
}

-- `__post_init__` changes nothing.
pub post_init-eq-ok : (c d : ChangeSet) → post_init c ≡ ok d → d ≡ c
unfolding post_init
post_init-eq-ok c d h = ground arith

-- The clock's or the caller's time is taken: it is aware and not before the last update.
pub record IsTimely (now : DateTime) (at : Option DateTime) (c : ChangeSet) : Type 0 where
  pub aware : (or_now at now).aware ≡ true
  pub later : c.updated_at.instant ≤ (or_now at now).instant

operation_time-eq-ok :
    (now : DateTime) (at : Option DateTime) (c : ChangeSet) {t : DateTime}
    → operation_time now at c ≡ ok t
    → IsTimely now at c × (t ≡ or_now at now)
operation_time-eq-ok now at c h = ground arith

-- What `_record_lineage` returns, for the timestamp that it took.
abbrev pub recorded :
    LineageEventKind
    → (base_sha head_sha branch : Option Text) → Option ChangeSetState
    → DateTime
    → ChangeSet
    → ChangeSet
recorded kind base_sha head_sha branch state t self = record self {
  base_sha = or_text base_sha self.base_sha;
  head_sha = or_text head_sha self.head_sha;
  branch = or_text branch self.branch;
  state = or_state state self.state;
  updated_at = t;
  lineage =
      self.lineage
      ++ record {
        kind = kind;
        occurred_at = t;
        previous_base_sha = self.base_sha;
        base_sha = or_text base_sha self.base_sha;
        previous_head_sha = self.head_sha;
        head_sha = or_text head_sha self.head_sha;
        previous_branch = self.branch;
        branch = or_text branch self.branch;
      }
        ∷ [];
}

module _ (now : DateTime) (at : Option DateTime) (c : ChangeSet) where
  pub record_lineage-eq-ok :
      (kind : LineageEventKind) (base_sha head_sha branch : Option Text)
      (state : Option ChangeSetState) (d : ChangeSet)
      → record_lineage now kind base_sha head_sha branch state at c ≡ ok d
      → IsTimely now at c
        × (is_misplaced kind c.state ≡ false)
        × (d ≡ recorded kind base_sha head_sha branch state (or_now at now) c)
  unfolding record_lineage
  record_lineage-eq-ok kind base_sha head_sha branch state d h =
      ground
        (arith, post_init-eq-ok (recorded kind base_sha head_sha branch state (or_now at now) c) d)

  pub activate-eq-ok :
      (head_sha : Option Text) (d : ChangeSet)
      → activate now head_sha at c ≡ ok d
      → IsTimely now at c
        × (c.state ≡ planned)
        × (d
            ≡ recorded activated none
                (some (or_text head_sha c.head_sha))
                none
                (some active)
                (or_now at now)
                c)
  unfolding activate
  activate-eq-ok head_sha d h = ground (
    arith,
    record_lineage-eq-ok activated none (some (or_text head_sha c.head_sha)) none (some active) d,
  )

  pub transition-eq-ok :
      (state : ChangeSetState) (d : ChangeSet)
      → transition now state at c ≡ ok d
      → IsTimely now at c
        × (is_allowed c.state state ≡ true)
        × (d ≡ record c { state = state; updated_at = or_now at now })
  unfolding transition
  transition-eq-ok state d h =
      ground (arith, post_init-eq-ok (record c { state = state; updated_at = or_now at now }) d)

  -- What `amend_scope` returns.
  abbrev pub amended : List Text → Text → ChangeSet
  amended added_scopes reason =
      let new = select (λ scope. not (mem_text scope c.scopes)) added_scopes in
      record c {
        scopes = sort_texts (c.scopes ++ new);
        updated_at = or_now at now;
        scope_amendments =
            c.scope_amendments
            ++ record { occurred_at = or_now at now; added_scopes = new; reason = strip reason }
              ∷ [];
      }

  pub amend_scope-eq-ok :
      (added_scopes : List Text) (reason : Text) (d : ChangeSet)
      → amend_scope now added_scopes reason at c ≡ ok d
      → IsTimely now at c
        × (is_lineage_state c.state ≡ true)
        × (repeats added_scopes ≡ false)
        × (d ≡ amended added_scopes reason)
  unfolding amend_scope
  amend_scope-eq-ok added_scopes reason d h =
      ground (arith, post_init-eq-ok (amended added_scopes reason) d)
