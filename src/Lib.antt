-- ===== src/Lib.antt =====
-- The coordination domain of WeftMark, in src/weftmark/domain, with its ledger, its bindings to
-- Git and its scope audit, in src/weftmark/application. WeftMark records what a session means to
-- change (a Change Set with its scopes), which leases it holds on these scopes, what evidence was
-- produced for its commits, whether a policy is satisfied by the evidence, what a review decided,
-- and the tasks behind all this. Every object is a frozen dataclass: an operation checks its
-- guards and builds a new object by `dataclasses.replace`, which runs the constructor's checks
-- (`__post_init__`) again.
--
-- The correspondence. A dataclass is a record, an enumeration a data type, and a method a function
-- of the same name that returns `Result`: a raised exception is `err` with the exception's class
-- (Prelude/Errors), without its text. `post_init` returns its argument where `__post_init__` raises
-- nothing, and stands at the end of each operation. A string is a list of code points
-- (Prelude/Strings). A `datetime` is an instant and whether it is aware (Prelude/Time): comparing an
-- aware and a naive one raises TypeError, as in Python. The clock that a method reads when its time
-- is left out is the argument `now`.
--
--   ChangeSet (domain/changeset.py): planning, activation, transitions, lineage, scope amendments.
--   Scope (domain/scope.py): the five kinds of scope; Scope/Normalize has the parser and the normal
--     forms, over the Unicode tables as a parameter, and Scope/Record `to_dict` and `from_dict`.
--   Lock (domain/lock.py): leases. Lock/Overlap decides whether two scopes compete, and Lock/Glob is
--     Python's `fnmatchcase`, which it calls.
--   Evidence (domain/evidence.py): the life of an evidence record and its staleness.
--   Policy (domain/policy.py): the evaluation of requirements over Evidence, with Scope and
--     Lock/Overlap for the applicability.
--   Review (domain/review.py): findings and decisions.
--   Task (domain/task.py): task intents with their history, dependencies and conflicts; its scopes
--     are parsed by Scope/Normalize.
--   Ledger (application/ports/ledger.py, application/ledger.py, adapters/jsonl_ledger.py): the
--     append-only chain of entries. SHA-256 and JSON are a parameter, and the file is the list of
--     the records that its lines decode to. Ledger/Store records values that a `Codec` writes.
--   Json (the payloads of the ledger): JSON values, and as the parameter `Python` what the payload
--     codecs use of Python. Json/Secret (application/ledger.py) is the search for secrets.
--   Binding (application/change_binding.py): observations of Git and the evidence they outdate.
--     Resolving a path asks the file system and is a parameter. Binding/Observe is the service that
--     creates and refreshes a binding; the answers of Git (application/ports/git.py) are a parameter.
--   Workspace (application/workspace.py): the bindings in the ledger. Workspace/Payload has their
--     JSON, which fills the interface `Codec` that the operations are written over.
--   Dependencies (application/tasks.py): the search for cycles that guards a new dependency. The graph
--     is the list of its edges.
--   Claim (application/claims.py): leases on all scopes of a Change Set, kept in the ledger.
--     Claim/Book finds the latest claims and their conflicts, Claim/Service is what one attempt
--     prepares and appends, Claim/Operations the operations with their attempts, Claim/Payload the
--     JSON. Claim/Run has a step relation on the ledger's file: one append of a claim that an
--     attempt prepared from a snapshot, perhaps an older one, or of an entry of another kind.
--   Audit (application/scope_audit.py): the changed paths of an observation against the declared
--     scopes, with Lock/Overlap; what it reports are findings of Review.
--   Planning (application/task_planning.py): which tasks of Task may be taken up next. The tasks and
--     relations that it reads are arguments.
--   Samples: parameters and values of the runs in the modules Tests.
--   Prelude: errors, lists, texts, times, sorting and membership.
--
-- Histories are indexed data types: `Step` has a constructor for each operation that succeeds, and
-- `Reach` is a sequence of them. The children of a component hold what is proved of it, and its
-- module Tests has runs on small inputs.
--
-- Bounds. Numbers are natural numbers: instants are microseconds since some origin, without an upper
-- end. Loops are structural, but for `tokens_from` in Lock/Glob, whose fuel is the length of the
-- pattern (each round reads one character at least), and for `digits` in Prelude/Decimal, which
-- prints a number and whose fuel is one more than the number (each round divides it by ten). The
-- attempts of an operation on claims are counted down from eight, as in the code. The search of
-- Dependencies has one round more than there are edges: each round takes one task off its list, and
-- each edge puts one on it at most once.
--
-- Processes. An operation that reads the ledger and then appends is given two files, the one that it
-- reads and the one that its append finds (`Moment` in Ledger/Store); nothing is assumed of what
-- others appended in between.
--
-- Not modelled: the other application services, adapters and interfaces (src/weftmark/application,
-- adapters, cli, http, mcp, tui), which call this domain; the text of a ledger's lines and its file
-- locks; the regular expression of secret texts; the text of errors and explanations; the Unicode
-- tables; the short-hand constructors of scopes. Texts count as blank by the white space of
-- Python's `str.strip`.

pub mod Prelude
pub mod Audit
pub mod Binding
pub mod ChangeSet
pub mod Claim
pub mod Dependencies
pub mod Evidence
pub mod Json
pub mod Ledger
pub mod Lock
pub mod Planning
pub mod Policy
pub mod Review
pub mod Samples
pub mod Scope
pub mod Task
pub mod Workspace
