-- ===== src/Workspace/Kept.antt =====
-- What is read of a Change Set after an operation kept its binding.
use mathlib.Core.Path.{subst}
use weft_mark.Prelude.{
  ◌+◌, Bool, true, false, ◌&&◌, codes, length, uncheck, raise_if, workspace_error, Option, some,
  List, [], ◌∷◌, ◌++◌, Text, text_eq, text_eq_refl, DateTime, Result, ok, ◌>>=◌, ◌≡◌, ◌∙◌, sym, ap,
  refl, arith, unbind, ok-injective, if◌then◌else◌, map,
}
use weft_mark.Scope.{Scope, canonical}
use weft_mark.ChangeSet.{ChangeSet, ChangeSetState, plan}
use weft_mark.ChangeSet
use weft_mark.Ledger.{Hashing, LedgerEntry, LedgerDraft, read_locked, latest}
use weft_mark.Ledger.Store.{Moment, Codec, record_value}
use weft_mark.Ledger.Kept.{IsKept, record_value-IsKept, latest-append}
use weft_mark.Binding.{ChangeBinding}
use weft_mark.Binding
use weft_mark.Binding.Observe.{Git, create, refresh}
use weft_mark.Workspace.{
  Stored, record_binding, latest_entry, decoded, is_present, attached, get_change_set,
  require_change_set, create_change_set, refresh_change_set, transition_change_set, amend_scope,
}

module _ (git : Git) (h : Hashing) (codec : Codec ChangeBinding) where
  pub record_binding-IsKept :
      (binding kept : ChangeBinding) (at : DateTime) (file longer : List LedgerEntry)
      → record_binding git h codec binding at file ≡ ok (kept, longer)
      → (binding ≡ kept) × IsKept h codec kept.change_set.id kept at file longer
  unfolding record_binding
  record_binding-IsKept binding kept at file longer e =
      let (file', recorded, e1) =
        unbind {first = record_value h codec binding.change_set.id binding at file} e in
      let same = ok-injective (binding, file') (kept, longer) e1 in
      let is : binding ≡ kept = ap (λ (x : Stored). x.0) same in
      (
        is,
        subst (λ (b : ChangeBinding). IsKept h codec b.change_set.id b at file longer) is
            (record_value-IsKept h codec binding.change_set.id binding at file longer
              (recorded ∙ ap (λ (x : Stored). ok x.1) same)),
      )

  -- The stored binding decodes to what was written.
  abbrev pub IsFaithful : ChangeBinding → Type 0
  IsFaithful b = (json : Text) → codec.encode b ≡ ok json → codec.decode json ≡ ok b

  -- What is read of the Change Sets once the binding is kept.
  pub get_change_set-kept :
      (kept : ChangeBinding) (at : DateTime) (file longer : List LedgerEntry) (id : Text)
      → IsKept h codec kept.change_set.id kept at file longer
      → IsFaithful kept
      → read_locked h file ≡ ok file
      → get_change_set git h codec longer id ≡ (
          if text_eq kept.change_set.id id
          then ok (some kept)
          else get_change_set git h codec file id)
  unfolding get_change_set latest_entry
  get_change_set-kept kept at file longer id x faithful reads =
      let after = λ (r : Result (List LedgerEntry)).
        (r >>= λ es. ok (latest codec.kind id es)) >>= decoded git h codec in
      let kind : text_eq x.entry.draft.kind codec.kind ≡ true =
        ap (λ (d : LedgerDraft). text_eq d.kind codec.kind) x.stored
        ∙ ap (λ k. text_eq k codec.kind) x.kind
        ∙ text_eq_refl codec.kind in
      let own : text_eq x.entry.draft.entity_id id ≡ text_eq kept.change_set.id id =
        ap (λ (d : LedgerDraft). text_eq d.entity_id id) x.stored ∙ ap (λ i. text_eq i id) x.id in
      let back : decoded git h codec (some x.entry) ≡ ok (some kept) =
        ap (λ (d : LedgerDraft). codec.decode d.payload_json >>= as_some) x.stored
        ∙ ap (λ r. r >>= as_some) (faithful x.draft.payload_json x.encoded) in
      ap after x.reads
      ∙ ap (λ f. decoded git h codec (latest codec.kind id f)) x.grown
      ∙ ap (decoded git h codec) (latest-append codec.kind id file x.entry)
      ∙ branch (text_eq x.entry.draft.kind codec.kind) (text_eq x.entry.draft.entity_id id) x.entry
          (latest codec.kind id file) kind back
      ∙ ap (λ b. if b then ok (some kept) else decoded git h codec (latest codec.kind id file)) own
      ∙ ap (λ r. if text_eq kept.change_set.id id then ok (some kept) else after r) (sym reads)
    where
      as_some : ChangeBinding → Result (Option ChangeBinding)
      as_some b = ok (some b)

      branch :
          (k b : Bool) (e : LedgerEntry) (o : Option LedgerEntry)
          → k ≡ true
          → decoded git h codec (some e) ≡ ok (some kept)
          → decoded git h codec (if k && b then some e else o)
            ≡ (if b then ok (some kept) else decoded git h codec o)
      branch true true e o is back = back
      branch true false e o is back = refl
      branch false b e o is back = cc

  -- What the operations that change the ledger are asked.
  pub data Request : Type 0 where
    for_create :
        (id goal base_revision : Text) (scopes : List Scope) (created_at : DateTime) → Request
    for_refresh : (id : Text) (observed_at : DateTime) (base_revision : Option Text) → Request
    for_transition : (id : Text) (state : ChangeSetState) (transitioned_at : DateTime) → Request
    for_amend :
        (id : Text) (added_scopes : List Scope) (reason : Text) (amended_at : DateTime) → Request

  -- The operation that is asked for.
  abbrev pub serve : Request → Moment → Result Stored
  serve (for_create id goal base_revision scopes created_at) moment =
      create_change_set git h codec id goal base_revision scopes created_at moment
  serve (for_refresh id observed_at base_revision) moment =
      refresh_change_set git h codec id observed_at base_revision moment
  serve (for_transition id state transitioned_at) moment =
      transition_change_set git h codec id state transitioned_at moment
  serve (for_amend id added_scopes reason amended_at) moment =
      amend_scope git h codec id added_scopes reason amended_at moment

  -- The record that an operation ends with.
  record Recorded (kept : ChangeBinding) (file longer : List LedgerEntry) : Type 0 where
    at : DateTime
    is_kept : IsKept h codec kept.change_set.id kept at file longer

  recorded :
      (binding kept : ChangeBinding) (at : DateTime) (file longer : List LedgerEntry)
      → record_binding git h codec binding at file ≡ ok (kept, longer)
      → Recorded kept file longer
  recorded binding kept at file longer e = record {
    at = at;
    is_kept = (record_binding-IsKept binding kept at file longer e).1;
  }

  pub amend_scope-record_binding :
      (id : Text) (added_scopes : List Scope) (reason : Text) (at : DateTime) (moment : Moment)
      (kept : ChangeBinding) (longer : List LedgerEntry)
      → amend_scope git h codec id added_scopes reason at moment ≡ ok (kept, longer)
      → (current : ChangeBinding) × (changed : ChangeSet) × (amended : ChangeBinding)
        × (require_change_set git h codec moment.seen id ≡ ok current)
        × (ChangeSet.amend_scope at (map canonical added_scopes) reason (some at) current.change_set
            ≡ ok changed)
        × (Binding.post_init git.resolve (record current { change_set = changed }) ≡ ok amended)
        × (record_binding git h codec amended at moment.found ≡ ok (kept, longer))
  unfolding amend_scope
  amend_scope-record_binding id added_scopes reason at moment kept longer e =
      let (current, is_current, e1) =
        unbind {first = require_change_set git h codec moment.seen id} e in
      let (changed, is_changed, e2) =
        unbind
          {first = ChangeSet.amend_scope at (map canonical added_scopes) reason (some at)
            current.change_set}
          e1 in
      let (amended, is_amended, e3) =
        unbind {first = Binding.post_init git.resolve (record current { change_set = changed })}
          e2 in
      (current, changed, amended, is_current, is_changed, is_amended, e3)

  serve-Recorded :
      (request : Request) (moment : Moment) (kept : ChangeBinding) (longer : List LedgerEntry)
      → serve request moment ≡ ok (kept, longer)
      → Recorded kept moment.found longer
  unfolding create_change_set refresh_change_set transition_change_set
  serve-Recorded (for_create id goal base_revision scopes created_at) moment kept longer e =
      let (existing, _, e1) = unbind {first = latest_entry git h codec moment.seen id} e in
      let (_, e2) =
        uncheck {first = raise_if (is_present git h codec existing) workspace_error} e1 in
      let (repository, _, e3) = unbind {first = git.repository} e2 in
      let (head, _, e4) = unbind {first = git.head} e3 in
      let (base, _, e5) = unbind {first = git.commit base_revision} e4 in
      let (branch, _, e6) = unbind {first = attached git h codec head.branch} e5 in
      let (worktree, _, e7) = unbind {first = attached git h codec repository.worktree} e6 in
      let (planned, _, e8) =
        unbind
          {first = plan created_at id goal repository.id base branch worktree (map canonical scopes)
            (some created_at)}
          e7 in
      let tracked = if text_eq base_revision (codes "HEAD") then base else base_revision in
      let (binding, _, e9) = unbind {first = create git planned tracked created_at} e8 in
      recorded binding kept created_at moment.found longer e9
  serve-Recorded (for_refresh id observed_at base_revision) moment kept longer e =
      let (current, _, e1) = unbind {first = require_change_set git h codec moment.seen id} e in
      let (refreshed, _, e2) = unbind {first = refresh git current observed_at base_revision} e1 in
      recorded refreshed kept observed_at moment.found longer e2
  serve-Recorded (for_transition id state at) moment kept longer e =
      let (current, _, e1) = unbind {first = require_change_set git h codec moment.seen id} e in
      let (changed, _, e2) =
        unbind {first = ChangeSet.transition at state (some at) current.change_set} e1 in
      let (transitioned, _, e3) =
        unbind {first = Binding.post_init git.resolve (record current { change_set = changed })}
          e2 in
      recorded transitioned kept at moment.found longer e3
  serve-Recorded (for_amend id added_scopes reason at) moment kept longer e =
      let (current, changed, amended, _, _, _, e1) =
        amend_scope-record_binding id added_scopes reason at moment kept longer e in
      recorded amended kept at moment.found longer e1

  -- Take an operation that creates, refreshes, transitions or amends a Change Set and returns, where the
  -- binding that it returns reads back as it was written. Then the new file reads back and has one entry more than the
  -- file that the append found, and of the new file that binding is read under its Change Set's id, and under every other id what was read before.
  pub operation_reads_back :
      (request : Request) (moment : Moment) (kept : ChangeBinding) (longer : List LedgerEntry)
      (id : Text)
      → IsFaithful kept
      → serve request moment ≡ ok (kept, longer)
      → (read_locked h longer ≡ ok longer)
        × (length longer ≡ length moment.found + 1)
        × (get_change_set git h codec longer id ≡ (
            if text_eq kept.change_set.id id
            then ok (some kept)
            else get_change_set git h codec moment.found id))
  operation_reads_back request moment kept longer id faithful e =
      let x = serve-Recorded request moment kept longer e in
      let k = x.is_kept in
      (
        k.reads,
        ap length k.grown ∙ length-snoc moment.found k.entry,
        get_change_set-kept kept x.at moment.found longer id k faithful k.was_read,
      )
    where
      length-snoc :
          (es : List LedgerEntry) (e : LedgerEntry) → length (es ++ e ∷ []) ≡ length es + 1
      length-snoc [] e = refl
      length-snoc (f ∷ es) e = ground (arith, length-snoc es e)
