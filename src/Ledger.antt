-- ===== src/Ledger.antt =====
-- src/weftmark/application/ports/ledger.py and src/weftmark/adapters/jsonl_ledger.py: an append-only log
-- whose entries are chained by digests. The file is the list of the records that its lines decode
-- to; the JSON of a line, the locks and the flags of the open file are not modelled. The parameter
-- `h` holds what the code takes from Python's `json` and `hashlib`.
pub mod Chain
pub mod Append
pub mod Store
pub mod Kept
mod Tests
use weft_mark.Prelude.{
  ℕ, zero, suc, ◌+◌, Bool, true, false, ◌&&◌, ◌||◌, not, ◌==◌, leb, Option, none, some, List, [],
  ◌∷◌, ◌++◌, all, select, length, last?, Text, text_eq, codes, is_blank, require_texts, DateTime,
  require_aware, Result, ok, err, ◌>>=◌, ◌>>◌, raise_if, if◌then◌else◌, ledger_contract_error,
  ledger_corruption, ledger_head_changed,
}

pub record LedgerDraft : Type 0 where
  pub kind : Text
  pub entity_id : Text
  pub payload_json : Text
  pub recorded_at : DateTime

pub record LedgerEntry : Type 0 where
  pub sequence : ℕ
  pub previous_digest : Text
  pub digest : Text
  pub draft : LedgerDraft

pub record Hashing : Type 0 where
  -- `json.dumps(json.loads(s), sort_keys=True, …)`, where `s` is a JSON object.
  pub canonical_object : Text → Option Text
  -- `json.dumps(_content(sequence, previous, draft), …).encode()`
  pub content : (sequence : ℕ) (previous : Text) (draft : LedgerDraft) → Text
  -- `hashlib.sha256(encoded).hexdigest()`
  pub sha256 : Text → Text

-- `LEDGER_GENESIS_DIGEST`
abbrev pub genesis_digest : Text
genesis_digest = codes "0000000000000000000000000000000000000000000000000000000000000000"

abbrev is_hex_digit : ℕ → Bool
is_hex_digit c = (leb b'0' c && leb c b'9') || (leb b'a' c && leb c b'f')

unfoldable pub is_digest : Text → Bool
is_digest s = length s == 64 && all is_hex_digit s

-- `entries[-1].digest if entries else LEDGER_GENESIS_DIGEST`
abbrev pub digest_of : Option LedgerEntry → Text
digest_of none = genesis_digest
digest_of (some e) = e.digest

abbrev pub head_digest : List LedgerEntry → Text
head_digest entries = digest_of (last? entries)

-- `LedgerEntry.__post_init__`
unfoldable pub entry_post_init : LedgerEntry → Result LedgerEntry
entry_post_init e = do
  raise_if (not (leb 1 e.sequence)) ledger_contract_error
  raise_if (not (is_digest e.previous_digest)) ledger_contract_error
  raise_if (not (is_digest e.digest)) ledger_contract_error
  ok e

-- `LedgerService.history`: an absent filter lets everything through.
abbrev passes : Option Text → Text → Bool
passes none s = true
passes (some wanted) s = text_eq s wanted

unfoldable pub history : (kind entity_id : Option Text) → List LedgerEntry → List LedgerEntry
history kind entity_id entries =
    select (λ e. passes kind e.draft.kind && passes entity_id e.draft.entity_id) entries

-- `LedgerService.latest`
unfoldable pub latest : (kind entity_id : Text) → List LedgerEntry → Option LedgerEntry
latest kind entity_id entries = last? (history (some kind) (some entity_id) entries)

module _ (h : Hashing) where
  -- `payload_json` is the canonical JSON of an object.
  abbrev is_canonical : Text → Bool
  is_canonical s = elim (h.canonical_object s) [ none ↦ false | some t ↦ text_eq t s ]

  -- `LedgerDraft.__post_init__`
  unfoldable pub draft_post_init : LedgerDraft → Result LedgerDraft
  draft_post_init d = do
    require_texts ledger_contract_error (d.kind ∷ d.entity_id ∷ d.payload_json ∷ [])
    require_aware ledger_contract_error d.recorded_at
    raise_if (not (is_canonical d.payload_json)) ledger_contract_error
    ok d

  -- `_entry_digest`
  unfoldable pub entry_digest : ℕ → Text → LedgerDraft → Text
  entry_digest sequence previous draft = h.sha256 (h.content sequence previous draft)

  -- The tests of `_read_locked` on one record.
  unfoldable pub check_entry : (index : ℕ) (previous : Text) → LedgerEntry → Result (Unit {0})
  check_entry index previous entry = do
    raise_if (not (entry.sequence == index)) ledger_corruption
    raise_if (not (text_eq entry.previous_digest previous)) ledger_corruption
    raise_if (not (text_eq entry.digest (entry_digest index previous entry.draft)))
        ledger_corruption

  -- The loop of `_read_locked`, from a position and the digest before it.
  unfoldable pub read_from :
      (index : ℕ) (previous : Text) → List LedgerEntry → Result (List LedgerEntry)
  read_from index previous [] = ok []
  read_from index previous (entry ∷ rest) = do
    check_entry index previous entry
    entries ← read_from (suc index) entry.digest rest
    ok (entry ∷ entries)

  -- `_read_locked`, which is also `entries`.
  unfoldable pub read_locked : List LedgerEntry → Result (List LedgerEntry)
  read_locked file = read_from 1 genesis_digest file

  -- `_append_locked`: the entry, and the file after it was written.
  unfoldable pub append_locked :
      (file entries : List LedgerEntry) (draft : LedgerDraft)
      → Result (LedgerEntry × List LedgerEntry)
  append_locked file entries draft = do
    let sequence = length entries + 1
    let previous = head_digest entries
    entry ← entry_post_init (record {
      sequence = sequence;
      previous_digest = previous;
      digest = entry_digest sequence previous draft;
      draft = draft;
    })
    ok (entry, file ++ entry ∷ [])

  unfoldable pub append :
      (file : List LedgerEntry) (draft : LedgerDraft) → Result (LedgerEntry × List LedgerEntry)
  append file draft = do entries ← read_locked file; append_locked file entries draft

  unfoldable pub append_if_head :
      (file : List LedgerEntry) (draft : LedgerDraft) (expected_digest : Text)
      → Result (LedgerEntry × List LedgerEntry)
  append_if_head file draft expected_digest = do
    entries ← read_locked file
    raise_if (not (text_eq (head_digest entries) expected_digest)) ledger_head_changed
    append_locked file entries draft
