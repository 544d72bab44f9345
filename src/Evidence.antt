-- ===== src/Evidence.antt =====
-- src/weftmark/domain/evidence.py: typed, immutable evidence and its staleness. `now` is what `_now()`
-- reads from the clock.
pub mod Outcomes
pub mod Lifecycle
pub mod Staleness
mod Tests
use weft_mark.Prelude.{
  ℕ, Bool, true, false, ◌&&◌, ◌||◌, not, ◌==◌, Option, none, some, List, [], ◌∷◌, ◌++◌, is_empty,
  any, Text, text_eq, require_text, DateTime, or_now, require_aware, raise_if_before, Result, ok,
  ◌>>=◌, ◌>>◌, raise_if, when_some, if◌then◌else◌, evidence_error, invalid_evidence_transition,
}

pub data EvidenceKind : Type 0 where
  test ci review benchmark deployment security security_governance docs artifact : EvidenceKind

pub data EvidenceState : Type 0 where
  declared running passed failed unavailable stale superseded : EvidenceState

pub data ProducerKind : Type 0 where
  worker ci human system : ProducerKind

pub data SubjectKind : Type 0 where
  task change_set commit review deployment : SubjectKind

pub data StaleReason : Type 0 where
  commit_changed environment_changed : StaleReason

-- The members in the order of their definition: two kinds are the same if their places are.
abbrev pub kind_place : EvidenceKind → ℕ
kind_place test = 0
kind_place EvidenceKind.ci = 1
kind_place EvidenceKind.review = 2
kind_place benchmark = 3
kind_place EvidenceKind.deployment = 4
kind_place security = 5
kind_place security_governance = 6
kind_place docs = 7
kind_place artifact = 8

abbrev pub subject_place : SubjectKind → ℕ
subject_place task = 0
subject_place change_set = 1
subject_place commit = 2
subject_place SubjectKind.review = 3
subject_place SubjectKind.deployment = 4

-- `record.kind is requirement.kind`
abbrev pub kind_eq : EvidenceKind → EvidenceKind → Bool
kind_eq a b = kind_place a == kind_place b

pub record EvidenceProducer : Type 0 where
  pub kind : ProducerKind
  pub id : Text

pub record EvidenceSubject : Type 0 where
  pub kind : SubjectKind
  pub id : Text

pub record ArtifactReference : Type 0 where
  pub uri : Text
  pub digest : Option Text

pub record Command : Type 0 where
  pub argv : List Text
  pub cwd : Text

pub record Environment : Type 0 where
  pub fingerprint : Text
  pub description : Option Text

unfoldable pub producer_post_init : EvidenceProducer → Result EvidenceProducer
producer_post_init p = do require_text evidence_error p.id; ok p

unfoldable pub subject_post_init : EvidenceSubject → Result EvidenceSubject
subject_post_init s = do require_text evidence_error s.id; ok s

unfoldable pub artifact_post_init : ArtifactReference → Result ArtifactReference
artifact_post_init a = do
  require_text evidence_error a.uri
  when_some a.digest (require_text evidence_error)
  ok a

unfoldable pub command_post_init : Command → Result Command
command_post_init c = do
  raise_if (is_empty c.argv || any is_empty c.argv) evidence_error
  require_text evidence_error c.cwd
  ok c

unfoldable pub environment_post_init : Environment → Result Environment
environment_post_init e = do require_text evidence_error e.fingerprint; ok e

-- `record.subject == self.subject`
abbrev pub subject_eq : EvidenceSubject → EvidenceSubject → Bool
subject_eq a b = subject_place a.kind == subject_place b.kind && text_eq a.id b.id

-- `_ALLOWED_TRANSITIONS`
unfoldable pub is_allowed : EvidenceState → EvidenceState → Bool
is_allowed declared running = true
is_allowed declared unavailable = true
is_allowed running passed = true
is_allowed running failed = true
is_allowed running unavailable = true
is_allowed passed stale = true
is_allowed passed superseded = true
is_allowed failed stale = true
is_allowed failed superseded = true
is_allowed unavailable stale = true
is_allowed unavailable superseded = true
is_allowed stale superseded = true
is_allowed _ _ = false

pub record Evidence : Type 0 where
  pub id : Text
  pub kind : EvidenceKind
  pub producer : EvidenceProducer
  pub subject : EvidenceSubject
  pub bound_commit_sha : Option Text
  pub environment : Option Environment
  pub command : Option Command
  pub artifacts : List ArtifactReference
  pub state : EvidenceState
  pub detail : Option Text
  pub stale_reasons : List StaleReason
  pub created_at : DateTime
  pub updated_at : DateTime
  pub started_at : Option DateTime
  pub completed_at : Option DateTime

unfoldable pub post_init : Evidence → Result Evidence
post_init e = do
  require_text evidence_error e.id
  when_some e.bound_commit_sha (require_text evidence_error)
  require_aware evidence_error e.created_at
  require_aware evidence_error e.updated_at
  raise_if_before e.updated_at e.created_at evidence_error
  ok e

unfoldable pub declare :
    (now : DateTime) (id : Text) (kind : EvidenceKind) (producer : EvidenceProducer)
    (subject : EvidenceSubject) (bound_commit_sha : Option Text) (environment : Option Environment)
    (command : Option Command) (artifacts : List ArtifactReference) (at : Option DateTime)
    → Result Evidence
declare now id kind producer subject bound_commit_sha environment command artifacts at =
    let timestamp = or_now at now in
    post_init (record {
      id = id;
      kind = kind;
      producer = producer;
      subject = subject;
      bound_commit_sha = bound_commit_sha;
      environment = environment;
      command = command;
      artifacts = artifacts;
      state = declared;
      detail = none;
      stale_reasons = [];
      created_at = timestamp;
      updated_at = timestamp;
      started_at = none;
      completed_at = none;
    })

-- `_operation_time`
abbrev pub operation_time : DateTime → Option DateTime → Evidence → Result DateTime
operation_time now at self = do
  let timestamp = or_now at now
  require_aware evidence_error timestamp
  raise_if_before timestamp self.updated_at evidence_error
  ok timestamp

-- `_transition`: `changed` is `self` with the fields that the caller passes in `changes`.
unfoldable pub move : EvidenceState → DateTime → (self changed : Evidence) → Result Evidence
move state at self changed = do
  raise_if (not (is_allowed self.state state)) invalid_evidence_transition
  post_init (record changed { state = state; updated_at = at })

-- Is there a bound and a current value, and are they different?
abbrev pub differs : Option Text → Option Text → Bool
differs (some bound) (some current) = not (text_eq current bound)
differs _ _ = false

abbrev pub fingerprint_of : Option Environment → Option Text
fingerprint_of none = none
fingerprint_of (some e) = some e.fingerprint

unfoldable pub staleness :
    Evidence → (current_commit_sha current_environment_fingerprint : Option Text) → List StaleReason
staleness self current_commit_sha current_environment_fingerprint =
    (if differs self.bound_commit_sha current_commit_sha then commit_changed ∷ [] else [])
    ++ (if differs (fingerprint_of self.environment) current_environment_fingerprint
        then environment_changed ∷ []
        else [])

module _ (now : DateTime) where
  unfoldable pub start : Option DateTime → Evidence → Result Evidence
  start at self = do
    timestamp ← operation_time now at self
    move running timestamp self (record self { started_at = some timestamp })

  -- `_complete`
  abbrev pub complete :
      EvidenceState → (detail : Option Text) → Option DateTime → Evidence → Result Evidence
  complete state detail at self = do
    timestamp ← operation_time now at self
    move state timestamp self (record self { detail = detail; completed_at = some timestamp })

  -- `pass_`
  unfoldable pub pass : (detail : Option Text) → Option DateTime → Evidence → Result Evidence
  pass detail at self = complete passed detail at self

  unfoldable pub fail : (detail : Text) → Option DateTime → Evidence → Result Evidence
  fail detail at self = do require_text evidence_error detail; complete failed (some detail) at self

  -- `unavailable`
  unfoldable pub mark_unavailable : (reason : Text) → Option DateTime → Evidence → Result Evidence
  mark_unavailable reason at self = do
    require_text evidence_error reason
    timestamp ← operation_time now at self
    move unavailable timestamp self
        (record self { detail = some reason; completed_at = some timestamp })

  unfoldable pub mark_stale :
      (current_commit_sha current_environment_fingerprint : Option Text)
      → Option DateTime
      → Evidence
      → Result Evidence
  mark_stale current_commit_sha current_environment_fingerprint at self = do
    let reasons = staleness self current_commit_sha current_environment_fingerprint
    raise_if (is_empty reasons) evidence_error
    timestamp ← operation_time now at self
    move stale timestamp self (record self { stale_reasons = reasons })

  unfoldable pub supersede : Option DateTime → Evidence → Result Evidence
  supersede at self = do timestamp ← operation_time now at self; move superseded timestamp self self
