-- ===== src/Ledger/Store.antt =====
-- Values kept in the ledger, as src/weftmark/application/ledger.py and the services over it do: a value is
-- encoded into the payload of a draft, and decoded from the payload of an entry.
use weft_mark.Prelude.{List, Text, DateTime, Result, ok, ◌>>=◌}
use weft_mark.Ledger.{
  Hashing, LedgerDraft, LedgerEntry, draft_post_init, append, append_if_head, head_digest,
}

-- How values of a kind are written and read. `encode` raises where the payload is refused as unsafe.
pub record Codec (Value : Type 0) : Type 0 where
  pub kind : Text
  pub encode : Value → Result Text
  pub decode : Text → Result Value

-- Between the reading of the ledger that an operation starts from and its append other processes may
-- write: the file as the operation read it, and as the append found it.
pub record Moment : Type 0 where
  pub seen : List LedgerEntry
  pub found : List LedgerEntry

module _ (h : Hashing) {Value : Type 0} (codec : Codec Value) where
  -- `_safe_draft` with the constructor of the draft
  unfoldable pub safe_draft :
      (entity_id : Text) (value : Value) (recorded_at : DateTime) → Result LedgerDraft
  safe_draft entity_id value recorded_at = do
    payload_json ← codec.encode value
    draft_post_init h (record {
      kind = codec.kind;
      entity_id = entity_id;
      payload_json = payload_json;
      recorded_at = recorded_at;
    })

  -- `LedgerService.record`: the file after it.
  unfoldable pub record_value :
      (entity_id : Text) (value : Value) (recorded_at : DateTime) (file : List LedgerEntry)
      → Result (List LedgerEntry)
  record_value entity_id value recorded_at file = do
    draft ← safe_draft entity_id value recorded_at
    (entry, longer) ← append h file draft
    ok longer

  -- `LedgerService.record_if_head`, where the head of `snapshot` is expected.
  unfoldable pub record_if_head :
      (entity_id : Text) (value : Value) (recorded_at : DateTime) (snapshot file : List LedgerEntry)
      → Result (List LedgerEntry)
  record_if_head entity_id value recorded_at snapshot file = do
    draft ← safe_draft entity_id value recorded_at
    (entry, longer) ← append_if_head h file draft (head_digest snapshot)
    ok longer
