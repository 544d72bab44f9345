-- ===== src/Claim/Lands.antt =====
-- What the ledger says of a claim that an attempt prepared and appended.
use weft_mark.Prelude.{List, DateTime, Error, Result-cases, ok, err, inl, inr, ◌≡◌, ◌∙◌, ap, arith}
use weft_mark.Scope.Normalize.{Unicode}
use weft_mark.Ledger.{Hashing, LedgerEntry, read_locked}
use weft_mark.Ledger.Chain.{IsCollisionFree}
use weft_mark.Ledger.Store.{Codec}
use weft_mark.Claim.{Claim}
use weft_mark.Claim.Book.{Book, put, latest_claims, require_claim}
use weft_mark.Claim.Service.{
  append_claim, prepare_acquire, prepare_renew, prepare_reacquire, widen, prepare_release,
}
use weft_mark.Claim.Landing.{IsFaithful, append_claim-same, append_claim-puts}
use weft_mark.Claim.Run.{Prepares, Prepares-reads}

-- The claims of the second file are those of the first, with the claim put under its id.
abbrev pub IsPut : Codec Claim → Claim → (file file' : List LedgerEntry) → Type 0
IsPut codec c file file' =
    (book : Book) × (latest_claims codec file ≡ ok book)
    × (latest_claims codec file' ≡ ok (put c.id c book))

module _ (h : Hashing) (codec : Codec Claim) (u : Unicode) where
  Prepares-latest :
      (seen : List LedgerEntry) (at : DateTime) (c : Claim)
      → Prepares h codec u seen at c
      → (book : Book) × (latest_claims codec seen ≡ ok book)
  unfolding prepare_acquire prepare_renew prepare_reacquire widen prepare_release require_claim
  Prepares-latest seen at c p = elim (Result-cases (latest_claims codec seen)) [
    | inl latest ↦ latest
    | inr (raised, raises) ↦ absurd (never raised (Prepares-reads h codec u seen at c p) raises p)
  ]
    where
      never :
          (raised : Error)
          → read_locked h seen ≡ ok seen
          → latest_claims codec seen ≡ err raised
          → ¬ Prepares h codec u seen at c
      never raised q r (Prepares.by_acquire _ _ _ _ _ _ _ _ e) = ground (arith, q, r, e)
      never raised q r (Prepares.by_renew _ _ _ _ e) = ground (arith, q, r, e)
      never raised q r (Prepares.by_reacquire _ _ _ _ _ e) = ground (arith, q, r, e)
      never raised q r (Prepares.by_extend _ _ _ _ _ e) = ground (arith, q, r, e)
      never raised q r (Prepares.by_release _ _ _ _ e) = ground (arith, q, r, e)

  pub append_claim-IsPut :
      (seen found file : List LedgerEntry) (at : DateTime) (c : Claim)
      → Prepares h codec u seen at c
      → append_claim h codec c (record { seen = seen; found = found }) ≡ ok file
      → IsCollisionFree h found seen
      → IsFaithful h codec c
      → IsPut codec c found file
  append_claim-IsPut seen found file at c p e free faithful =
      let (book, latest) = Prepares-latest seen at c p in
      let reads = Prepares-reads h codec u seen at c p in
      let same =
        append_claim-same h codec c (record { seen = seen; found = found }) file e reads free in
      let before : latest_claims codec found ≡ ok book = ap (latest_claims codec) same ∙ latest in
      let (_, _, after) =
        append_claim-puts h codec c (record { seen = seen; found = found }) file book e reads free
          faithful before in
      (book, before, after)
