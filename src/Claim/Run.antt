-- ===== src/Claim/Run.antt =====
-- All that processes do to a ledger with claims, one append after the other.
use mathlib.Core.Path.{subst}
use weft_mark.Prelude.{
  ℕ, zero, ◌≤◌, true, false, Option, some, List, [], Text, text_eq, DateTime, Error, ok, err, inl,
  inr, ◌≡◌, ◌∙◌, sym, ap, refl, arith, In, unbind, add_seconds, ok-injective,
}
use weft_mark.Scope.{Scope}
use weft_mark.Scope.Normalize.{Unicode}
use weft_mark.Lock.{SemanticLock, conflicts_with}
use weft_mark.Lock.Conflict.{conflicts_with_comm}
use weft_mark.Ledger.{Hashing, LedgerDraft, LedgerEntry, read_locked, read_from, append}
use weft_mark.Ledger.Chain.{IsCollisionFree, read_locked-cases}
use weft_mark.Ledger.Store.{Codec}
use weft_mark.Claim.{Claim}
use weft_mark.Claim
use weft_mark.Claim.Book.{Book, get, put, latest_from, latest_claims}
use weft_mark.Claim.Service.{
  leases, parse_scopes, append_claim, new_claim, prepare_acquire, prepare_renew, prepare_reacquire,
  widen, prepare_release,
}
use weft_mark.Claim.Names.{IsNamed, leases-IsNamed}
use weft_mark.Claim.Keep.{IsExclusive, IsExclusive-later, put-IsExclusive}
use weft_mark.Claim.Prepared.{
  IsPrepared, prepare_acquire-IsPrepared, prepare_renew-IsPrepared, prepare_reacquire-IsPrepared,
  widen-IsPrepared, prepare_release-IsPrepared,
}
use weft_mark.Claim.Landing.{IsFaithful, append_claim-puts, other-latest_claims}

-- The constructor of a claim returns its argument, whose time is aware.
pub claim_post_init-eq-ok :
    (c d : Claim) → Claim.post_init c ≡ ok d → (d ≡ c) × (c.updated_at.aware ≡ true)
unfolding Claim.post_init
claim_post_init-eq-ok c d e = (ground arith, ground arith)

module _ (h : Hashing) (codec : Codec Claim) (u : Unicode) where
  -- What one attempt of an operation prepares, from its snapshot and at its time.
  pub data Prepares (seen : List LedgerEntry) (at : DateTime) (c : Claim) : Type 0 where
    by_acquire :
        (scopes : List Text) (id change_set_id agent_id session_id : Text) (lease_seconds : ℕ)
        (claim : Claim)
        → new_claim h codec u scopes id change_set_id agent_id session_id at lease_seconds
          ≡ ok claim
        → prepare_acquire h codec claim at seen ≡ ok c
        → Prepares seen at c
    by_renew :
        (id agent_id session_id : Text) (extend_seconds : ℕ)
        → prepare_renew h codec id agent_id session_id at extend_seconds seen ≡ ok c
        → Prepares seen at c
    by_reacquire :
        (id agent_id session_id : Text) (lease_seconds : ℕ) (expected : Option Text)
        → prepare_reacquire h codec id agent_id session_id at lease_seconds expected seen ≡ ok c
        → Prepares seen at c
    by_extend :
        (id : Text) (added_scopes new_ones : List Scope) (agent_id session_id : Text)
        → widen h codec id added_scopes agent_id session_id at seen ≡ ok (c, new_ones)
        → Prepares seen at c
    by_release :
        (id agent_id session_id reason : Text)
        → prepare_release h codec id agent_id session_id at reason seen ≡ ok c
        → Prepares seen at c

  -- One append to a file: of a claim that an attempt prepared from a snapshot, perhaps an older one, or of
  -- an entry that is no claim.
  pub data Step (file file' : List LedgerEntry) : ℕ → Type 0 where
    of_claim :
        (seen : List LedgerEntry) (at : DateTime) (c : Claim)
        → Prepares seen at c
        → append_claim h codec c (record { seen = seen; found = file }) ≡ ok file'
        → IsCollisionFree h file seen
        → IsFaithful h codec c
        → Step file file' at.instant
    of_other :
        (draft : LedgerDraft) (entry : LedgerEntry) (t : ℕ)
        → text_eq draft.kind codec.kind ≡ false
        → append h file draft ≡ ok (entry, file')
        → Step file file' t

  -- Files that appends lead to from the empty one, with the times of the operations not going back.
  pub data Run : List LedgerEntry → ℕ → Type 0 where
    fresh : Run [] zero
    next :
        {file file' : List LedgerEntry} {s t : ℕ}
        → Run file s
        → s ≤ t
        → Step file file' t
        → Run file' t

  -- The file reads back, and its claims are apart from a time on.
  pub record Holds (t : ℕ) (file : List LedgerEntry) : Type 0 where
    pub book : Book
    pub reads : read_locked h file ≡ ok file
    pub latest : latest_claims codec file ≡ ok book
    pub apart : IsExclusive t book

  new_claim-eq-ok :
      (scopes : List Text) (id change_set_id agent_id session_id : Text) (at : DateTime)
      (lease_seconds : ℕ) (claim : Claim)
      → new_claim h codec u scopes id change_set_id agent_id session_id at lease_seconds ≡ ok claim
      → (at.aware ≡ true)
        × (claim.updated_at ≡ at)
        × ((n : SemanticLock) → In n claim.locks → IsNamed claim.id n)
  unfolding new_claim
  new_claim-eq-ok scopes id change_set_id agent_id session_id at lease_seconds claim e =
      let (parsed, _, e1) = unbind {first = parse_scopes u scopes} e in
      let (locks, leased, made) =
        unbind
          {first = leases id agent_id session_id change_set_id at (add_seconds at lease_seconds) 1
            parsed}
          e1 in
      let (is, aware) = claim_post_init-eq-ok _ claim made in
      let own =
        leases-IsNamed id agent_id session_id change_set_id at (add_seconds at lease_seconds) 1
          parsed locks leased in
      (
        aware,
        ap (λ (x : Claim). x.updated_at) is,
        λ n i.
            subst (λ a. IsNamed a n) (sym (ap (λ (x : Claim). x.id) is))
              (own n (subst (λ (x : Claim). In n x.locks) is i)),
      )

  pub Prepares-reads :
      (seen : List LedgerEntry) (at : DateTime) (c : Claim)
      → Prepares seen at c
      → read_locked h seen ≡ ok seen
  unfolding prepare_acquire prepare_renew prepare_reacquire widen prepare_release
  Prepares-reads seen at c p = elim (read_locked-cases h seen) [
    | inl reads ↦ reads
    | inr (raised, raises) ↦ absurd (never raised raises p)
  ]
    where
      never : (raised : Error) → read_locked h seen ≡ err raised → ¬ Prepares seen at c
      never raised r (by_acquire _ _ _ _ _ _ _ _ e) = ground (arith, r, e)
      never raised r (by_renew _ _ _ _ e) = ground (arith, r, e)
      never raised r (by_reacquire _ _ _ _ _ e) = ground (arith, r, e)
      never raised r (by_extend _ _ _ _ _ e) = ground (arith, r, e)
      never raised r (by_release _ _ _ _ e) = ground (arith, r, e)

  Prepares-IsPrepared :
      (t : ℕ) (seen : List LedgerEntry) (at : DateTime) (c : Claim) (x : Holds t seen)
      → t ≤ at.instant
      → Prepares seen at c
      → IsPrepared at x.book c
  Prepares-IsPrepared t seen at c x le
        (by_acquire scopes id change_set_id agent_id session_id secs claim e p) =
      let (aware, updated, own) =
        new_claim-eq-ok scopes id change_set_id agent_id session_id at secs claim e in
      prepare_acquire-IsPrepared h codec t at le seen x.book x.reads x.latest x.apart claim c aware
        updated own p
  Prepares-IsPrepared t seen at c x le (by_renew id agent_id session_id secs p) =
      prepare_renew-IsPrepared h codec t at le seen x.book x.reads x.latest x.apart id agent_id
        session_id secs c p
  Prepares-IsPrepared t seen at c x le (by_reacquire id agent_id session_id secs expected p) =
      prepare_reacquire-IsPrepared h codec t at le seen x.book x.reads x.latest x.apart id agent_id
        session_id secs expected c p
  Prepares-IsPrepared t seen at c x le (by_extend id added new_ones agent_id session_id p) =
      widen-IsPrepared h codec t at le seen x.book x.reads x.latest x.apart id added agent_id
        session_id c new_ones p
  Prepares-IsPrepared t seen at c x le (by_release id agent_id session_id reason p) =
      prepare_release-IsPrepared h codec t at le seen x.book x.reads x.latest x.apart id agent_id
        session_id reason c p

  Step-Holds :
      (file file' : List LedgerEntry) (s t : ℕ)
      → Holds s file
      → s ≤ t
      → Step file file' t
      → Holds t file'
  Step-Holds file file' s t x le (of_claim seen at c p e free faithful) =
      let (same, reads, latest) =
        append_claim-puts h codec c (record { seen = seen; found = file }) file' x.book e
          (Prepares-reads seen at c p) free faithful x.latest in
      let prepared =
        Prepares-IsPrepared s file at c x le (subst (λ f. Prepares f at c) (sym same) p) in
      record {
        book = put c.id c x.book;
        reads = reads;
        latest = latest;
        apart =
            put-IsExclusive at.instant c x.book (IsExclusive-later s at.instant x.book le x.apart)
              prepared.sound prepared.apart;
      }
  Step-Holds file file' s t x le (of_other draft entry _ foreign e) =
      let (reads, latest) =
        other-latest_claims h codec file file' draft entry x.book foreign e x.latest in
      record {
        book = x.book;
        reads = reads;
        latest = latest;
        apart = IsExclusive-later s t x.book le x.apart;
      }

  Run-Holds : {file : List LedgerEntry} {t : ℕ} → Run file t → Holds t file
  unfolding read_locked read_from latest_claims latest_from
  Run-Holds fresh = record {
    book = [];
    reads = refl;
    latest = refl;
    apart = record {
      sound = λ a c g. absurd (ground (arith, g));
      apart = λ a b c d n g k. absurd (ground (arith, g));
    };
  }
  Run-Holds (next {file = f} {file' = g} {s = s} {t = t} r le step) =
      Step-Holds f g s t (Run-Holds r) le step

  -- Take the claims of a ledger that appends led to from the empty one, by any interleaving of processes
  -- that acquire, renew, reacquire, extend and release claims, from snapshots that may be old, with
  -- the times of the operations not going back, no collision among the digests of a snapshot and the
  -- file, and each claim read back as it was written. At no aware time from the last operation on do
  -- a lease of one claim and a lease of another conflict.
  pub claims_never_conflict :
      (file : List LedgerEntry) (t : ℕ) (book : Book) (a b : Text) (c d : Claim)
      (l m : SemanticLock) (at : DateTime)
      → Run file t
      → latest_claims codec file ≡ ok book
      → text_eq a b ≡ false
      → get a book ≡ some c
      → get b book ≡ some d
      → In l c.locks
      → In m d.locks
      → at.aware ≡ true
      → t ≤ at.instant
      → conflicts_with l m at ≡ ok false
  claims_never_conflict file t book a b c d l m at run latest other found_c found_d in_c in_d aware
        le =
      let x = Run-Holds run in
      let same = ok-injective x.book book (sym x.latest ∙ latest) in
      let y = subst (IsExclusive t) same x.apart in
      let never = (y.apart a b c d other found_c found_d l m in_c in_d).never at.instant le in
      let vl = ((y.sound a c found_c).own l in_c).valid in
      let vm = ((y.sound b d found_d).own m in_d).valid in
      (conflicts_with_comm l m at vl vm aware).0 ∙ ap ok (ground (arith, never))
