-- ===== src/Claim/Book.antt =====
-- The claims that a ledger holds, the latest of each id, and the search for conflicts among them.
use weft_mark.Prelude.{
  not, Option, none, some, List, [], ◌∷◌, select, Text, text_eq, DateTime, Result, ok, err, ◌>>=◌,
  ◌>>◌, raise_if, if◌then◌else◌, claim_conflict, claim_service_error,
}
use weft_mark.Lock.{SemanticLock, conflicts_with}
use weft_mark.Ledger.{LedgerEntry}
use weft_mark.Ledger.Store.{Codec}
use weft_mark.Claim.{Claim}

-- A dictionary of claims by id, in the order of insertion.
abbrev pub Book : Type 0
Book = List (Text × Claim)

-- `book.get(id)`
abbrev pub get : Text → Book → Option Claim
get id [] = none
get id ((key, claim) ∷ book) = let rest = get id book in if text_eq key id then some claim else rest

-- `book[id] = claim`
abbrev pub put : Text → Claim → Book → Book
put id claim [] = (id, claim) ∷ []
put id claim ((key, old) ∷ book) =
    let rest = put id claim book in
    if text_eq key id then (key, claim) ∷ book else (key, old) ∷ rest

-- `if requested_lock.conflicts_with(existing_lock, at=at): raise ClaimConflict`, for each lock of a claim
unfoldable pub check_lock : DateTime → SemanticLock → List SemanticLock → Result (Unit {0})
check_lock at requested [] = ok tt
check_lock at requested (existing ∷ locks) = do
  conflict ← conflicts_with requested existing at
  raise_if conflict claim_conflict
  check_lock at requested locks

unfoldable pub check_locks : DateTime → List SemanticLock → List SemanticLock → Result (Unit {0})
check_locks at [] existing = ok tt
check_locks at (requested ∷ locks) existing = do
  check_lock at requested existing
  check_locks at locks existing

-- The three loops over the existing claims.
unfoldable pub check_claims : DateTime → List SemanticLock → Book → Result (Unit {0})
check_claims at requested [] = ok tt
check_claims at requested ((key, existing) ∷ book) = do
  check_locks at requested existing.locks
  check_claims at requested book

-- The loop where the claim itself is passed over.
abbrev pub others : Text → Book → Book
others id book = select (λ item. not (text_eq item.0 id)) book

module _ (codec : Codec Claim) where
  -- One round of `_latest_claims`.
  unfoldable pub take_entry : LedgerEntry → Book → Result Book
  take_entry entry book =
      if text_eq entry.draft.kind codec.kind
      then (do
        claim ← codec.decode entry.draft.payload_json
        ok (put entry.draft.entity_id claim book))
      else ok book

  unfoldable pub latest_from : List LedgerEntry → Book → Result Book
  latest_from [] book = ok book
  latest_from (entry ∷ entries) book = do next ← take_entry entry book; latest_from entries next

  -- `_latest_claims`
  unfoldable pub latest_claims : List LedgerEntry → Result Book
  latest_claims entries = latest_from entries []

  abbrev pub found : Option Claim → Result Claim
  found none = err claim_service_error
  found (some claim) = ok claim

  -- `_require_claim`
  unfoldable pub require_claim : List LedgerEntry → Text → Result Claim
  require_claim entries id = do book ← latest_claims entries; found (get id book)
