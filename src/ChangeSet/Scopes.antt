-- ===== src/ChangeSet/Scopes.antt =====
-- Scope amendments only widen the declared scope, and each scope can be traced to its declaration.
use weft_mark.Prelude.{
  Bool, ◌||◌, not, List, [], ◌∷◌, ◌++◌, Option, Text, any, select, text_eq, text_eq_iff, mem_text,
  strip, sort_texts, any-append, any-sort_texts, DateTime, or_now, ok, ◌≡◌, ◌∙◌, refl, arith,
  IsSorted, sort_texts-IsSorted,
}
use weft_mark.ChangeSet.{ChangeSet, ScopeAmendment, amend_scope, advance_head, move_branch, rebase}
use weft_mark.ChangeSet.Outcomes.{
  amended, amend_scope-eq-ok, activate-eq-ok, transition-eq-ok, record_lineage-eq-ok,
}
use weft_mark.ChangeSet.History.{
  Step, by_activate, by_transition, by_advance, by_move, by_rebase, by_amend, Reach, here, next,
}

-- The scopes that are not declared yet.
abbrev fresh : List Text → List Text → List Text
fresh old added = select (λ scope. not (mem_text scope old)) added

mem-fresh :
    (x : Text) (old added : List Text)
    → (mem_text x old || mem_text x (fresh old added)) ≡ (mem_text x old || mem_text x added)
mem-fresh x old [] = refl
mem-fresh x old (y ∷ ys) = ground (arith, text_eq_iff x y, mem-fresh x old ys)

mem-sorted :
    (x : Text) (old added : List Text)
    → mem_text x (sort_texts (old ++ fresh old added)) ≡ (mem_text x old || mem_text x added)
mem-sorted x old added =
    any-sort_texts (text_eq x) (old ++ fresh old added)
    ∙ any-append (text_eq x) old (fresh old added)
    ∙ mem-fresh x old added

-- After a successful `amend_scope` a scope is declared exactly if it was declared before or is among
-- the added ones, and the declared scopes are sorted.
pub mem-amend_scope :
    (now : DateTime) (at : Option DateTime) (c d : ChangeSet) (added_scopes : List Text)
    (reason x : Text)
    → amend_scope now added_scopes reason at c ≡ ok d
    → (mem_text x d.scopes ≡ (mem_text x c.scopes || mem_text x added_scopes)) × IsSorted d.scopes
mem-amend_scope now at c d added_scopes reason x e =
    let (_, _, _, is) = amend_scope-eq-ok now at c added_scopes reason d e in
    rw is (mem-sorted x c.scopes added_scopes, sort_texts-IsSorted _)

-- Some amendment added the scope.
abbrev pub is_amended : Text → List ScopeAmendment → Bool
is_amended x amendments = any (λ a. mem_text x a.added_scopes) amendments

-- A scope is declared if and only if `o` declares it or a later amendment added it.
abbrev pub IsAccounted : Text → ChangeSet → ChangeSet → Type 0
IsAccounted x o c = mem_text x c.scopes ≡ (mem_text x o.scopes || is_amended x c.scope_amendments)

module _ (x : Text) (o c : ChangeSet) (h : IsAccounted x o c) where
  amended-IsAccounted :
      (now : DateTime) (at : Option DateTime) (added_scopes : List Text) (reason : Text)
      → IsAccounted x o (amended now at c added_scopes reason)
  amended-IsAccounted now at added_scopes reason = ground (
    arith,
    h,
    any-sort_texts (text_eq x) (c.scopes ++ fresh c.scopes added_scopes),
    any-append (text_eq x) c.scopes (fresh c.scopes added_scopes),
    any-append (λ (a : ScopeAmendment). mem_text x a.added_scopes) c.scope_amendments
        (record {
          occurred_at = or_now at now;
          added_scopes = fresh c.scopes added_scopes;
          reason = strip reason;
        }
          ∷ []),
  )

  Step-IsAccounted : {d : ChangeSet} → Step c d → IsAccounted x o d
  unfolding advance_head move_branch rebase
  Step-IsAccounted {d} (by_activate now at head_sha e) =
      rw (activate-eq-ok now at c head_sha d e).2 h
  Step-IsAccounted {d} (by_transition now at state e) = rw (transition-eq-ok now at c state d e).2 h
  Step-IsAccounted {d} (by_advance now at head_sha e) =
      rw (record_lineage-eq-ok now at c _ _ _ _ _ d e).2 h
  Step-IsAccounted {d} (by_move now at branch head_sha e) =
      rw (record_lineage-eq-ok now at c _ _ _ _ _ d e).2 h
  Step-IsAccounted {d} (by_rebase now at base_sha head_sha e) =
      rw (record_lineage-eq-ok now at c _ _ _ _ _ d e).2 h
  Step-IsAccounted {d} (by_amend now at new reason e) =
      rw (amend_scope-eq-ok now at c new reason d e).3 (amended-IsAccounted now at new reason)

-- Whatever operations succeed on a change set without amendments, a scope is declared at the end if
-- and only if it was declared at the start or some recorded amendment added it: no
-- operation narrows the scope, and none widens it without a record.
pub Reach-IsAccounted :
    (x : Text) {o c : ChangeSet} → o.scope_amendments ≡ [] → Reach o c → IsAccounted x o c
Reach-IsAccounted x e here = ground (arith, e)
Reach-IsAccounted x {o} e (next {d} r s) = Step-IsAccounted x o d (Reach-IsAccounted x e r) s
