-- ===== src/Lock/Tests.antt =====
-- Runs of lock.py on small inputs, and its theorems at them.
use weft_mark.Prelude.{
  true, false, [], ◌∷◌, none, some, codes, text_eq, text_lt, is_space, lstrip, strip, is_blank, utc,
  ok, err, ◌≡◌, refl, invalid_lock_operation,
}
use weft_mark.Scope.{Scope, file}
use weft_mark.Lock.Glob.{
  fnmatchcase, tokens, tokens_from, matches, accepts, head_is, tail, until_bracket, set_body, items,
  without_empty, items_outside, set_token, in_item,
}
use weft_mark.Lock.Overlap.{
  has_magic, before_magic, rstrip_slash, literal_prefix, starts_with, path_prefix,
  file_scopes_overlap, scopes_overlap,
}
use weft_mark.Lock.{
  SemanticLock, LockState, LockEventKind, post_init, acquire, state_at, owns_scope_at, renew,
  reacquire, release, observe_expiry, conflicts_with, renewed, reacquired,
}
use weft_mark.Lock.Outcomes.{logged}
use weft_mark.Lock.Conflict.{conflicts_with_comm, is_conflict}
use weft_mark.Lock.Gap.{overlap_gap, glob}
use weft_mark.Lock.Lease.{
  Reach, here, next, by_renew, by_expiry, by_reacquire, by_release, IsOrderly,
  Reach-acquire-IsOrderly, released_is_final,
}

-- What a run has to see through.
program : Unit {0}
unfolding post_init acquire state_at owns_scope_at renew reacquire release observe_expiry
    conflicts_with fnmatchcase tokens tokens_from matches accepts head_is tail until_bracket
    set_body items without_empty items_outside set_token in_item has_magic before_magic rstrip_slash
    literal_prefix starts_with path_prefix file_scopes_overlap scopes_overlap is_blank strip lstrip
    is_space text_eq text_lt
program = tt

abbrev sources : Scope
sources = record { kind = file; key = codes "src/*.py"; display_label = none }

abbrev main_file : Scope
main_file = record { kind = file; key = codes "src/main.py"; display_label = none }

-- A star also matches a slash, and a set its characters.
runs_of_glob :
    (fnmatchcase (codes "src/a/b.py") (codes "src/*.py") ≡ true)
    × (fnmatchcase (codes "a1") (codes "a[0-9]") ≡ true)
    × (fnmatchcase (codes "ax") (codes "a[!x]") ≡ false)
    × (fnmatchcase (codes "a[") (codes "?[") ≡ true)
    × (fnmatchcase (codes "y") (codes "[z-a!x]") ≡ true)
    × (fnmatchcase (codes "x") (codes "[z-a!x]") ≡ false)
    × (fnmatchcase (codes "m") (codes "[z-a!-k-n]") ≡ true)
    × (fnmatchcase (codes "-") (codes "[z-a!-k-n]") ≡ false)
unfolding program
runs_of_glob = (refl, refl, refl, refl, refl, refl, refl, refl)

runs_of_overlap :
    (scopes_overlap sources main_file ≡ true)
    × (file_scopes_overlap (codes "docs/*") (codes "docs/a/*") ≡ true)
    × (file_scopes_overlap (codes "docs/*") (codes "src/*") ≡ false)
    × (file_scopes_overlap (codes "docs") (codes "docs/a") ≡ false)
unfolding program
runs_of_overlap = (refl, refl, refl, refl)

abbrev first_lease : SemanticLock
first_lease = record {
  id = codes "l1";
  scope = sources;
  agent_id = codes "a";
  session_id = codes "s";
  change_set_id = codes "c";
  acquired_at = utc 10;
  expires_at = utc 20;
  state = LockState.active;
  updated_at = some (utc 10);
  events =
      record {
        kind = LockEventKind.acquired;
        occurred_at = utc 10;
        previous_expires_at = none;
        expires_at = some (utc 20);
        reason = none;
      }
      ∷ [];
}

abbrev second_lease : SemanticLock
second_lease = record first_lease { id = codes "l2"; scope = main_file }

acquire-first :
    acquire (codes "l1") sources (codes "a") (codes "s") (codes "c") (utc 10) (utc 20)
    ≡ ok first_lease
unfolding program
acquire-first = refl

first_valid : post_init first_lease ≡ ok first_lease
unfolding program
first_valid = refl

second_valid : post_init second_lease ≡ ok second_lease
unfolding program
second_valid = refl

conflicts_with_comm_example :
    (conflicts_with first_lease second_lease (utc 12)
      ≡ ok (is_conflict first_lease second_lease (utc 12)))
    × (conflicts_with second_lease first_lease (utc 12)
        ≡ ok (is_conflict first_lease second_lease (utc 12)))
conflicts_with_comm_example =
    conflicts_with_comm first_lease second_lease (utc 12) first_valid second_valid refl

conflict_run : conflicts_with first_lease second_lease (utc 12) ≡ ok true
unfolding program
conflict_run = refl

prefix_plain : has_magic (codes "src/a") ≡ false
unfolding program
prefix_plain = refl

prefix_no_slash : rstrip_slash (codes "src/a") ≡ codes "src/a"
unfolding program
prefix_no_slash = refl

overlap_gap_example :
    (fnmatchcase (codes "src/app.py") (glob (codes "src/a")) ≡ true)
    × (fnmatchcase (codes "src/app.py") (glob (codes "src/ap")) ≡ true)
    × (file_scopes_overlap (glob (codes "src/a")) (glob (codes "src/ap")) ≡ false)
overlap_gap_example =
    overlap_gap (codes "src/a") (codes "p.py") b'p' prefix_plain refl prefix_no_slash (refl, refl)

abbrev extended : SemanticLock
extended = logged renewed (utc 15) (utc 30) none LockState.active (utc 15) first_lease

renew-first : renew first_lease (utc 15) (utc 30) ≡ ok extended
unfolding program
renew-first = refl

abbrev lapsed : SemanticLock
lapsed = logged LockEventKind.expired (utc 30) (utc 30) none LockState.expired (utc 33) extended

expire-extended : observe_expiry extended (utc 33) ≡ ok lapsed
unfolding program
expire-extended = refl

abbrev back : SemanticLock
back = logged reacquired (utc 35) (utc 40) none LockState.active (utc 35) lapsed

reacquire-lapsed : reacquire lapsed (utc 35) (utc 40) ≡ ok back
unfolding program
reacquire-lapsed = refl

abbrev given_up : SemanticLock
given_up =
    logged LockEventKind.released (utc 36) (utc 40) (some (codes "done")) LockState.released
      (utc 36) back

release-back : release back (utc 36) (codes "done") ≡ ok given_up
unfolding program
release-back = refl

too_late : renew first_lease (utc 20) (utc 30) ≡ err invalid_lock_operation
unfolding program
too_late = refl

life : Reach first_lease given_up
life =
    next
      (next
        (next (next here (by_renew (utc 15) (utc 30) renew-first))
          (by_expiry (utc 33) expire-extended))
        (by_reacquire (utc 35) (utc 40) reacquire-lapsed))
      (by_release (utc 36) (codes "done") release-back)

Reach-acquire-IsOrderly_example : IsOrderly given_up
Reach-acquire-IsOrderly_example =
    Reach-acquire-IsOrderly (codes "l1") sources (codes "a") (codes "s") (codes "c") (utc 10)
      (utc 20) first_lease given_up acquire-first life

released_is_final_example : (given_up ≡ given_up) × (owns_scope_at given_up (utc 37) ≡ ok false)
released_is_final_example = released_is_final given_up given_up (utc 37) refl refl here
