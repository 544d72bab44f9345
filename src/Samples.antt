-- ===== src/Samples.antt =====
-- Small parameters and values for the runs: texts as they are for the Unicode tables, a number for the content of
-- a ledger's entry, and a text of two numbers for a time.
use weft_mark.Prelude.{
  ℕ, zero, suc, Bool, true, false, if◌then◌else◌, [], ◌∷◌, some, none, Text, codes, text_eq,
  DateTime, utc, Result, ok, err, value_error, ◌≡◌, refl, ◌+◌, ◌++◌,
}
use weft_mark.Scope.{file}
use weft_mark.Scope.Normalize.{Unicode}
use weft_mark.ChangeSet.{ChangeSetState}
use weft_mark.Ledger.{Hashing}
use weft_mark.Ledger.Store.{Codec}
use weft_mark.Binding.{ChangeBinding, GitLineageObservation}
use weft_mark.Binding.Observe.{Git}
use weft_mark.Lock.{SemanticLock, LockState, LockEventKind}
use weft_mark.Claim.{Claim}
use weft_mark.Json.{Json, Python}

abbrev pub plain : Unicode
plain = record { nfkc = λ s. s; casefold = λ s. s }

abbrev pub digest_of_one : Text
digest_of_one = codes "1111111111111111111111111111111111111111111111111111111111111111"

abbrev pub digest_of_others : Text
digest_of_others = codes "2222222222222222222222222222222222222222222222222222222222222222"

abbrev pub sample : Hashing
sample = record {
  canonical_object = λ s. some s;
  content = λ n previous draft. n ∷ [];
  sha256 = λ s. if text_eq s (1 ∷ []) then digest_of_one else digest_of_others;
}

abbrev pub read_time : Text → Result DateTime
read_time (n ∷ zero ∷ []) = ok (record { instant = n; aware = false })
read_time (n ∷ suc zero ∷ []) = ok (record { instant = n; aware = true })
read_time _ = err value_error

abbrev pub write_time : DateTime → Text
write_time t = t.instant ∷ (if t.aware then 1 else 0) ∷ []

pub read_time-write_time : (t : DateTime) → read_time (write_time t) ≡ ok t
read_time-write_time t = instant_kept t.instant t.aware
  where
    instant_kept :
        (n : ℕ) (b : Bool)
        → read_time (write_time (record { instant = n; aware = b }))
          ≡ ok (record { instant = n; aware = b })
    instant_kept n true = refl
    instant_kept n false = refl

-- Writes every value as one text, which is read back as the given value.
abbrev pub python_of : Json → Python
python_of stored = record {
  str = λ v. [];
  isoformat = write_time;
  fromisoformat = read_time;
  dumps = λ v. ok (codes "{}");
  loads = λ s. ok stored;
  has_secret = λ s. false;
}

-- A lease of a minute on a file, taken at an instant.
abbrev pub lease : (name key : Text) → (at : ℕ) → SemanticLock
lease name key at = record {
  id = name;
  scope = record { kind = file; key = key; display_label = none };
  agent_id = codes "agent";
  session_id = codes "session";
  change_set_id = codes "cs";
  acquired_at = utc at;
  expires_at = utc (at + 60_000_000);
  state = LockState.active;
  updated_at = some (utc at);
  events =
      record {
        kind = LockEventKind.acquired;
        occurred_at = utc at;
        previous_expires_at = none;
        expires_at = some (utc (at + 60_000_000));
        reason = none;
      }
      ∷ [];
}

-- A claim of one file.
abbrev pub claim_on : (name key : Text) → (at : ℕ) → Claim
claim_on name key at = record {
  id = name;
  change_set_id = codes "cs";
  agent_id = codes "agent";
  session_id = codes "session";
  locks = lease (name ++ codes ":1") key at ∷ [];
  updated_at = utc at;
}

-- A repository on the branch `topic`, with the head `h2` on the base `b` and one changed path.
abbrev pub repository : Git
repository = record {
  repository = ok (record { id = codes "repo"; worktree = some (codes "tree") });
  head = ok (record { target = codes "h2"; branch = some (codes "topic") });
  commit = λ revision. ok (codes "b");
  diff = λ base head. ok (codes "a" ∷ []);
  status = ok [];
  resolve = λ p. p;
}

abbrev pub first_observation : GitLineageObservation
first_observation = record {
  id = codes "cs:git:1";
  repository_id = codes "repo";
  base_revision = codes "main";
  base_sha = codes "b";
  head_sha = codes "h1";
  branch = codes "topic";
  worktree = codes "tree";
  changed_paths = [];
  dirty_paths = [];
  observed_at = utc 1;
}

-- An active Change Set that declares one file.
abbrev pub bound : ChangeBinding
bound = record {
  change_set = record {
    id = codes "cs";
    goal = codes "goal";
    repository_id = codes "repo";
    base_sha = codes "b";
    head_sha = codes "h1";
    branch = codes "topic";
    worktree = codes "tree";
    scopes = codes "file:a" ∷ [];
    state = ChangeSetState.active;
    created_at = utc 1;
    updated_at = utc 1;
    lineage = [];
    scope_amendments = [];
  };
  base_revision = codes "main";
  observations = first_observation ∷ [];
}

-- Bindings of which each is written as the instant of its change; one is read.
abbrev pub bindings_of : ChangeBinding → Codec ChangeBinding
bindings_of stored = record {
  kind = codes "changeset";
  encode = λ b. ok (b.change_set.updated_at.instant ∷ []);
  decode = λ s. ok stored;
}
