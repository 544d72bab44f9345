-- ===== src/Claim/Landing.antt =====
-- What an append of a claim does to the claims of the ledger.
use mathlib.Core.Path.{subst}
use weft_mark.Prelude.{
  false, List, [], ◌∷◌, ◌++◌, Text, text_eq, text_eq_iff, text_eq_refl, DateTime, Result-cases, ok,
  ◌>>=◌, ◌≡◌, ◌∙◌, sym, ap, inl, inr, arith, unbind, ok-injective, if◌then◌else◌,
}
use weft_mark.Ledger.{
  Hashing, LedgerDraft, LedgerEntry, read_locked, head_digest, draft_post_init, append,
  append_if_head,
}
use weft_mark.Ledger.Chain.{IsCollisionFree, head_determines_file}
use weft_mark.Ledger.Append.{append_reads_back, append_of_append_if_head}
use weft_mark.Ledger.Store.{Moment, Codec, safe_draft, record_if_head}
use weft_mark.Claim.{Claim}
use weft_mark.Claim.Book.{Book, put, take_entry, latest_from, latest_claims}
use weft_mark.Claim.Service.{append_claim}

latest_from-append :
    (codec : Codec Claim) (es : List LedgerEntry) (e : LedgerEntry) (book : Book)
    → latest_from codec (es ++ e ∷ []) book ≡ (latest_from codec es book >>= take_entry codec e)
unfolding latest_from
latest_from-append codec [] e book = elim (Result-cases (take_entry codec e book)) [
  | inl (b, taken) ↦ ground (arith, taken)
  | inr (r, raises) ↦ ground (arith, raises)
]
latest_from-append codec (f ∷ es) e book = elim (Result-cases (take_entry codec f book)) [
  | inl (b, taken) ↦ ground (arith, taken, latest_from-append codec es e b)
  | inr (r, raises) ↦ ground (arith, raises)
]

module _ (h : Hashing) (codec : Codec Claim) where
  -- An entry of another kind leaves the claims as they were.
  pub other-latest_claims :
      (file file' : List LedgerEntry) (draft : LedgerDraft) (entry : LedgerEntry) (book : Book)
      → text_eq draft.kind codec.kind ≡ false
      → append h file draft ≡ ok (entry, file')
      → latest_claims codec file ≡ ok book
      → (read_locked h file' ≡ ok file') × (latest_claims codec file' ≡ ok book)
  unfolding latest_claims take_entry
  other-latest_claims file file' draft entry book foreign e latest =
      let (reads, is, longer, back) = append_reads_back h file file' draft entry e in
      let same : entry.draft.kind ≡ draft.kind = ap (λ (x : LedgerEntry). x.draft.kind) is in
      (
        back,
        ap (λ f. latest_from codec f []) longer
            ∙ latest_from-append codec file entry []
            ∙ ap (λ r. r >>= take_entry codec entry) latest
            ∙ ground (arith, ap (λ k. text_eq k codec.kind) same ∙ foreign),
      )

  safe_draft-eq-ok :
      (c : Claim) (at : DateTime) (draft : LedgerDraft)
      → safe_draft h codec c.id c at ≡ ok draft
      → (json : Text) × (codec.encode c ≡ ok json)
        × (draft
            ≡ record { kind = codec.kind; entity_id = c.id; payload_json = json; recorded_at = at })
  unfolding safe_draft draft_post_init
  safe_draft-eq-ok c at draft e =
      let (json, encoded, e1) = unbind {first = codec.encode c} e in
      (json, encoded, ground (arith, e1))

  take_entry-puts :
      (c : Claim) (e : LedgerEntry) (json : Text) (book : Book)
      → e.draft ≡ record {
        kind = codec.kind;
        entity_id = c.id;
        payload_json = json;
        recorded_at = c.updated_at;
      }
      → codec.decode json ≡ ok c
      → take_entry codec e book ≡ ok (put c.id c book)
  unfolding take_entry
  take_entry-puts c e json book stored decoded =
      ap
        (λ (d : LedgerDraft).
          if text_eq d.kind codec.kind
          then (do claim ← codec.decode d.payload_json; ok (put d.entity_id claim book))
          else ok book)
        stored
      ∙ ground (arith, text_eq_refl codec.kind, decoded)

  append_if_head-same :
      (file file' : List LedgerEntry) (draft : LedgerDraft) (expected : Text) (entry : LedgerEntry)
      → append_if_head h file draft expected ≡ ok (entry, file')
      → (read_locked h file ≡ ok file) × (head_digest file ≡ expected)
  unfolding append_if_head
  append_if_head-same file file' draft expected entry e =
      let (reads, _, _, _) =
        append_reads_back h file file' draft entry
          (append_of_append_if_head h file file' draft expected entry e) in
      (reads, (text_eq_iff (head_digest file) expected).0 (ground (arith, e, reads)))

  -- The stored claim decodes to what was written.
  abbrev pub IsFaithful : Claim → Type 0
  IsFaithful c = (json : Text) → codec.encode c ≡ ok json → codec.decode json ≡ ok c

  -- An append that succeeds found the file of its snapshot.
  pub append_claim-same :
      (c : Claim) (m : Moment) (file' : List LedgerEntry)
      → append_claim h codec c m ≡ ok file'
      → read_locked h m.seen ≡ ok m.seen
      → IsCollisionFree h m.found m.seen
      → m.found ≡ m.seen
  unfolding append_claim record_if_head
  append_claim-same c m file' e seen_reads free =
      let (draft, drafted, e1) = unbind {first = safe_draft h codec c.id c c.updated_at} e in
      let (pair, appended, _) =
        unbind {first = append_if_head h m.found draft (head_digest m.seen)} e1 in
      let (reads, heads) =
        append_if_head-same m.found pair.1 draft (head_digest m.seen) pair.0 appended in
      head_determines_file h m.found m.seen m.found m.seen reads seen_reads heads free

  -- An append that succeeds found the file of its snapshot, and puts the claim among the others.
  pub append_claim-puts :
      (c : Claim) (m : Moment) (file' : List LedgerEntry) (book : Book)
      → append_claim h codec c m ≡ ok file'
      → read_locked h m.seen ≡ ok m.seen
      → IsCollisionFree h m.found m.seen
      → IsFaithful c
      → latest_claims codec m.found ≡ ok book
      → (m.found ≡ m.seen)
        × (read_locked h file' ≡ ok file')
        × (latest_claims codec file' ≡ ok (put c.id c book))
  unfolding append_claim record_if_head latest_claims take_entry
  append_claim-puts c m file' book e seen_reads free faithful latest =
      let (draft, drafted, e1) = unbind {first = safe_draft h codec c.id c c.updated_at} e in
      let (pair, appended, e2) =
        unbind {first = append_if_head h m.found draft (head_digest m.seen)} e1 in
      let (json, encoded, drawn) = safe_draft-eq-ok c c.updated_at draft drafted in
      let is : pair.1 ≡ file' = ok-injective pair.1 file' e2 in
      let (_, entry, longer, back) =
        append_reads_back h m.found pair.1 draft pair.0
          (append_of_append_if_head h m.found pair.1 draft (head_digest m.seen) pair.0 appended) in
      let stored : pair.0.draft ≡ record {
        kind = codec.kind;
        entity_id = c.id;
        payload_json = json;
        recorded_at = c.updated_at;
      } =
        ap (λ (x : LedgerEntry). x.draft) entry ∙ drawn in
      (
        append_claim-same c m file' e seen_reads free,
        subst (λ f. read_locked h f ≡ ok f) is back,
        ap (λ f. latest_from codec f []) (sym is ∙ longer)
            ∙ latest_from-append codec m.found pair.0 []
            ∙ ap (λ r. r >>= take_entry codec pair.0) latest
            ∙ take_entry-puts c pair.0 json book stored (faithful json encoded),
      )
