-- ===== src/ChangeSet/History.antt =====
-- The histories of a change set: each step is one successful operation of changeset.py.
use weft_mark.Prelude.{Option, List, Text, DateTime, ok, ◌≡◌}
use weft_mark.ChangeSet.{
  ChangeSet, ChangeSetState, activate, transition, advance_head, move_branch, rebase, amend_scope,
}

pub data Step (c d : ChangeSet) : Type 0 where
  by_activate :
      (now : DateTime) (at : Option DateTime) (head_sha : Option Text)
      → activate now head_sha at c ≡ ok d
      → Step c d
  by_transition :
      (now : DateTime) (at : Option DateTime) (state : ChangeSetState)
      → transition now state at c ≡ ok d
      → Step c d
  by_advance :
      (now : DateTime) (at : Option DateTime) (head_sha : Text)
      → advance_head now head_sha at c ≡ ok d
      → Step c d
  by_move :
      (now : DateTime) (at : Option DateTime) (branch head_sha : Text)
      → move_branch now branch head_sha at c ≡ ok d
      → Step c d
  by_rebase :
      (now : DateTime) (at : Option DateTime) (base_sha head_sha : Text)
      → rebase now base_sha head_sha at c ≡ ok d
      → Step c d
  by_amend :
      (now : DateTime) (at : Option DateTime) (added_scopes : List Text) (reason : Text)
      → amend_scope now added_scopes reason at c ≡ ok d
      → Step c d

pub data Reach (c : ChangeSet) : ChangeSet → Type 0 where
  here : Reach c c
  next : {d e : ChangeSet} → Reach c d → Step d e → Reach c e
