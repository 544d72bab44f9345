-- ===== src/Ledger/Kept.antt =====
-- What is read from a ledger after values were kept in it.
use mathlib.Core.Path.{subst}
use weft_mark.Prelude.{
  Bool, true, false, ◌&&◌, some, List, [], ◌∷◌, ◌++◌, last?, last?-append, select-append, select,
  Text, text_eq, DateTime, ok, ◌≡◌, ◌∙◌, sym, ap, refl, arith, unbind, ok-injective, if◌then◌else◌,
}
use weft_mark.Ledger.{
  Hashing, LedgerDraft, LedgerEntry, draft_post_init, read_locked, append, history, latest,
}
use weft_mark.Ledger.Append.{append_reads_back}
use weft_mark.Ledger.Store.{Codec, safe_draft, record_value}

append_nil : {A : Type 0} (xs : List A) → xs ++ [] ≡ xs
append_nil [] = refl
append_nil (x ∷ xs) = ap (λ ys. x ∷ ys) (append_nil xs)

-- The latest entry of an id is the last one, or the same as before it.
pub latest-append :
    (kind entity_id : Text) (es : List LedgerEntry) (e : LedgerEntry)
    → latest kind entity_id (es ++ e ∷ []) ≡ (
        if text_eq e.draft.kind kind && text_eq e.draft.entity_id entity_id
        then some e
        else latest kind entity_id es)
unfolding latest history
latest-append kind entity_id es e = last_select es
  where
    is_wanted : LedgerEntry → Bool
    is_wanted x = text_eq x.draft.kind kind && text_eq x.draft.entity_id entity_id

    behind :
        (b : Bool) (xs : List LedgerEntry)
        → last? (xs ++ (if b then e ∷ [] else [])) ≡ (if b then some e else last? xs)
    behind true xs = last?-append xs e
    behind false xs = ap last? (append_nil xs)

    last_select :
        (es : List LedgerEntry)
        → last? (select is_wanted (es ++ e ∷ []))
          ≡ (if is_wanted e then some e else last? (select is_wanted es))
    last_select es =
        ap last? (select-append is_wanted es (e ∷ [])) ∙ behind (is_wanted e) (select is_wanted es)

module _ (h : Hashing) {Value : Type 0} (codec : Codec Value) where
  -- What a record of a value did.
  pub record IsKept (entity_id : Text) (value : Value) (at : DateTime)
      (file longer : List LedgerEntry) : Type 0 where
    pub draft : LedgerDraft
    pub entry : LedgerEntry
    pub encoded : codec.encode value ≡ ok draft.payload_json
    pub kind : draft.kind ≡ codec.kind
    pub id : draft.entity_id ≡ entity_id
    pub was_read : read_locked h file ≡ ok file
    pub appended : append h file draft ≡ ok (entry, longer)
    pub stored : entry.draft ≡ draft
    pub grown : longer ≡ file ++ entry ∷ []
    pub reads : read_locked h longer ≡ ok longer

  pub record_value-IsKept :
      (entity_id : Text) (value : Value) (at : DateTime) (file longer : List LedgerEntry)
      → record_value h codec entity_id value at file ≡ ok longer
      → IsKept entity_id value at file longer
  unfolding record_value safe_draft draft_post_init
  record_value-IsKept entity_id value at file longer e =
      let (draft, drafted, e1) = unbind {first = safe_draft h codec entity_id value at} e in
      let (json, encoded, e2) = unbind {first = codec.encode value} drafted in
      let is : draft ≡ record {
        kind = codec.kind;
        entity_id = entity_id;
        payload_json = json;
        recorded_at = at;
      } =
        ground (arith, e2) in
      let (pair, appended, e3) = unbind {first = append h file draft} e1 in
      let same : pair.1 ≡ longer = ok-injective pair.1 longer e3 in
      let (reads, next, grown, back) = append_reads_back h file pair.1 draft pair.0 appended in
      record {
        draft = draft;
        entry = pair.0;
        encoded = encoded ∙ ap ok (ap (λ (d : LedgerDraft). d.payload_json) (sym is));
        kind = ap (λ (d : LedgerDraft). d.kind) is;
        id = ap (λ (d : LedgerDraft). d.entity_id) is;
        was_read = reads;
        appended = appended ∙ ap (λ f. ok (pair.0, f)) same;
        stored = ap (λ (x : LedgerEntry). x.draft) next;
        grown = sym same ∙ grown;
        reads = subst (λ f. read_locked h f ≡ ok f) same back;
      }
