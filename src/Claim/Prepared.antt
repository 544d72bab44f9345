-- ===== src/Claim/Prepared.antt =====
-- What an attempt is about to append: a claim whose leases are apart from those of all others.
use mathlib.Core.Path.{subst}
use weft_mark.Prelude.{
  ℕ, ◌+◌, ◌≤◌, true, false, not, any, Option, none, some, List, [], ◌∷◌, ◌++◌, length, is_empty,
  Text, text_eq, DateTime, add_seconds, Result, ok, ◌≡◌, ◌∙◌, sym, ap, refl, inl, inr, ◌⊎◌, arith,
  In, unbind, uncheck, ok-injective, raise_if, claim_service_error, claim_precondition_changed,
}
use weft_mark.Scope.{Scope}
use weft_mark.Lock.{
  SemanticLock, LockState, post_init, renew, reacquire, release, is_expired, is_active, reacquired,
  renewed, LockEventKind,
}
use weft_mark.Lock.Outcomes.{logged, renew-eq-ok, reacquire-eq-ok, release-eq-ok}
use weft_mark.Ledger.{Hashing, LedgerEntry, read_locked, head_digest}
use weft_mark.Ledger.Store.{Codec}
use weft_mark.Claim.{Claim, require_owner, claim_state_at}
use weft_mark.Claim
use weft_mark.Claim.Book.{Book, get, others, check_claims, latest_claims, require_claim, found}
use weft_mark.Claim.Service.{
  each, max_expiry, leases, changed, prepare_acquire, prepare_renew, prepare_reacquire, widen,
  prepare_release, has_moved, first_expiry, genuinely_new,
}
use weft_mark.Claim.Apart.{owns, Apart-later, Apart-kept, Apart-inactive}
use weft_mark.Claim.Names.{IsNamed, name_of, post_init-valid, leases-IsNamed}
use weft_mark.Claim.Keep.{IsSound, IsExclusive, IsApartFrom, check_claims-AllApart, get-others}

pub record IsPrepared (at : DateTime) (book : Book) (c : Claim) : Type 0 where
  pub sound : IsSound c.id c
  pub updated : c.updated_at ≡ at
  pub apart : IsApartFrom at.instant c.id c.locks book

-- What an operation on a lease leaves as it was.
record IsKept (l m : SemanticLock) : Type 0 where
  id : m.id ≡ l.id
  scope : m.scope ≡ l.scope
  valid : post_init m ≡ ok m

each-In :
    (f : SemanticLock → Result SemanticLock) (ls ms : List SemanticLock) (m : SemanticLock)
    → each f ls ≡ ok ms
    → In m ms
    → (l : SemanticLock) × In l ls × (f l ≡ ok m)
unfolding each
each-In f [] ms m e k = let none : ms ≡ [] = ground (arith, e) in absurd (subst (In m) none k)
each-In f (l ∷ ls) ms m e k =
    let (n, first, e1) = unbind {first = f l} e in
    let (ns, rest, e2) = unbind {first = each f ls} e1 in
    let is : ms ≡ n ∷ ns = ground (arith, e2) in
    elim (subst (In m) is k) [
      | inl same ↦ (l, inl refl, first ∙ ap ok (sym same))
      | inr later ↦ let (x, i, made) = each-In f ls ns m rest later in (x, inr i, made)
    ]

module _ (l m : SemanticLock) (at expires_at : DateTime) where
  renew-IsKept : renew l at expires_at ≡ ok m → IsKept l m × (owns l at.instant ≡ true)
  renew-IsKept e =
      let (was, after, early, longer, is) = renew-eq-ok l m at expires_at e in
      let made : post_init (logged renewed at expires_at none l.state at l) ≡ ok m =
        unfold renew in ground (arith, e) in
      (
        record {
          id = ap (λ (x : SemanticLock). x.id) is;
          scope = ap (λ (x : SemanticLock). x.scope) is;
          valid = post_init-valid _ m made;
        },
        ground (arith, was, early),
      )

  reacquire-IsKept : reacquire l at expires_at ≡ ok m → IsKept l m
  reacquire-IsKept e =
      let (was, after, early, is) = reacquire-eq-ok l m at expires_at e in
      let made : post_init (logged reacquired at expires_at none LockState.active at l) ≡ ok m =
        unfold reacquire in ground (arith, e) in
      record {
        id = ap (λ (x : SemanticLock). x.id) is;
        scope = ap (λ (x : SemanticLock). x.scope) is;
        valid = post_init-valid _ m made;
      }

release-IsKept :
    (l m : SemanticLock) (at : DateTime) (reason : Text)
    → release l at reason ≡ ok m
    → IsKept l m × (is_active m.state ≡ false)
release-IsKept l m at reason e =
    let (was, after, early, is) = release-eq-ok l m at reason e in
    let made : post_init
          (logged LockEventKind.released at l.expires_at (some reason) LockState.released at l)
        ≡ ok m =
      unfold release in ground (arith, e) in
    (
      record {
        id = ap (λ (x : SemanticLock). x.id) is;
        scope = ap (λ (x : SemanticLock). x.scope) is;
        valid = post_init-valid _ m made;
      },
      ap (λ (x : SemanticLock). is_active x.state) is,
    )

-- The constructor of a claim returns its argument, whose time is aware.
pub changed-eq-ok :
    (claim c : Claim) (locks : List SemanticLock) (at : DateTime)
    → changed claim locks at ≡ ok c
    → (c ≡ record claim { locks = locks; updated_at = at }) × (at.aware ≡ true)
unfolding Claim.post_init
changed-eq-ok claim c locks at e = (ground arith, ground arith)

pub found-eq-ok :
    (codec : Codec Claim) (o : Option Claim) (c : Claim) → found codec o ≡ ok c → o ≡ some c
found-eq-ok codec none c e = cc
found-eq-ok codec (some d) c e = ground (arith, e)

module _ (h : Hashing) (codec : Codec Claim) (start : ℕ) (at : DateTime) (le : start ≤ at.instant)
    (seen : List LedgerEntry) (book : Book) (reads : read_locked h seen ≡ ok seen)
    (latest : latest_claims codec seen ≡ ok book) (x : IsExclusive start book) where
  -- The snapshot of an attempt is the file, and its claims are those of the book.
  snapshot_book :
      (snapshot : List LedgerEntry) (current : Book)
      → read_locked h seen ≡ ok snapshot
      → latest_claims codec snapshot ≡ ok current
      → current ≡ book
  snapshot_book snapshot current r l =
      let same = ok-injective snapshot seen (sym r ∙ reads) in
      ok-injective current book (sym l ∙ ap (latest_claims codec) same ∙ latest)

  require_claim-get :
      (snapshot : List LedgerEntry) (id : Text) (claim : Claim)
      → read_locked h seen ≡ ok snapshot
      → require_claim codec snapshot id ≡ ok claim
      → get id book ≡ some claim
  unfolding require_claim
  require_claim-get snapshot id claim r e =
      let (current, l, e1) = unbind {first = latest_claims codec snapshot} e in
      ap (get id) (sym (snapshot_book snapshot current r l))
      ∙ found-eq-ok codec (get id current) claim e1

  -- A claim with other leases of the same ids is sound as the old one was.
  kept-IsSound :
      (id : Text) (claim c : Claim) (locks : List SemanticLock)
      → get id book ≡ some claim
      → c ≡ record claim { locks = locks; updated_at = at }
      → ((m : SemanticLock) → In m locks → IsNamed id m)
      → IsSound c.id c
  kept-IsSound id claim c locks g is own =
      let named = (x.sound id claim g).named in
      record {
        named = refl;
        own = λ m k.
            let same = ap (λ (y : Claim). y.locks) is in
            let key : c.id ≡ id = ap (λ (y : Claim). y.id) is ∙ named in
            subst (λ a. IsNamed a m) (sym key) (own m (subst (In m) same k));
      }

  kept-IsApart :
      (id : Text) (claim c : Claim) (locks : List SemanticLock)
      → get id book ≡ some claim
      → c ≡ record claim { locks = locks; updated_at = at }
      → IsApartFrom at.instant id locks book
      → IsApartFrom at.instant c.id c.locks book
  kept-IsApart id claim c locks g is apart =
      let key : c.id ≡ id = ap (λ (y : Claim). y.id) is ∙ (x.sound id claim g).named in
      let same : c.locks ≡ locks = ap (λ (y : Claim). y.locks) is in
      subst (λ a. IsApartFrom at.instant a c.locks book) (sym key)
        (subst (λ ls. IsApartFrom at.instant id ls book) (sym same) apart)

  kept-IsPrepared :
      (id : Text) (claim c : Claim) (locks : List SemanticLock)
      → get id book ≡ some claim
      → changed claim locks at ≡ ok c
      → ((m : SemanticLock) → In m locks → IsNamed id m)
      → IsApartFrom at.instant id locks book
      → IsPrepared at book c
  kept-IsPrepared id claim c locks g made own apart =
      let is = (changed-eq-ok claim c locks at made).0 in
      record {
        sound = kept-IsSound id claim c locks g is own;
        updated = ap (λ (y : Claim). y.updated_at) is;
        apart = kept-IsApart id claim c locks g is apart;
      }

  -- A lease that an operation derived from one of the claim's is named after it, too.
  IsKept-IsNamed :
      (id : Text) (claim : Claim) (l m : SemanticLock)
      → get id book ≡ some claim
      → In l claim.locks
      → IsKept l m
      → IsNamed id m
  IsKept-IsNamed id claim l m g i k =
      let s = x.sound id claim g in
      record { valid = k.valid; name = ap name_of k.id ∙ (s.own l i).name ∙ s.named }

  pub prepare_renew-IsPrepared :
      (id agent_id session_id : Text) (extend_seconds : ℕ) (c : Claim)
      → prepare_renew h codec id agent_id session_id at extend_seconds seen ≡ ok c
      → IsPrepared at book c
  unfolding prepare_renew
  prepare_renew-IsPrepared id agent_id session_id extend_seconds c e =
      let (snapshot, r, e1) = unbind {first = read_locked h seen} e in
      let (claim, f, e2) = unbind {first = require_claim codec snapshot id} e1 in
      let (owner, e3) = uncheck {first = require_owner claim agent_id session_id} e2 in
      let (until, m, e4) = unbind {first = max_expiry claim.locks} e3 in
      let (locks, each_ok, made) =
        unbind {first = each (λ lock. renew lock at (add_seconds until extend_seconds)) claim.locks}
          e4 in
      let g = require_claim-get snapshot id claim r f in
      let next = λ (lock : SemanticLock). renew lock at (add_seconds until extend_seconds) in
      kept-IsPrepared id claim c locks g made
        (λ m k.
          let (l, i, step) = each-In next claim.locks locks m each_ok k in
          IsKept-IsNamed id claim l m g i (renew-IsKept l m at _ step).0)
        (λ b d other found m n k j.
          let (l, i, step) = each-In next claim.locks locks m each_ok k in
          let (kept, held) = renew-IsKept l m at _ step in
          Apart-kept at.instant le held kept.scope (x.apart id b claim d other g found l n i j))

  pub prepare_release-IsPrepared :
      (id agent_id session_id reason : Text) (c : Claim)
      → prepare_release h codec id agent_id session_id at reason seen ≡ ok c
      → IsPrepared at book c
  unfolding prepare_release
  prepare_release-IsPrepared id agent_id session_id reason c e =
      let (snapshot, r, e1) = unbind {first = read_locked h seen} e in
      let (claim, f, e2) = unbind {first = require_claim codec snapshot id} e1 in
      let (owner, e3) = uncheck {first = require_owner claim agent_id session_id} e2 in
      let (locks, each_ok, made) =
        unbind {first = each (λ lock. release lock at reason) claim.locks} e3 in
      let g = require_claim-get snapshot id claim r f in
      let next = λ (lock : SemanticLock). release lock at reason in
      kept-IsPrepared id claim c locks g made
        (λ m k.
          let (l, i, step) = each-In next claim.locks locks m each_ok k in
          IsKept-IsNamed id claim l m g i (release-IsKept l m at reason step).0)
        (λ b d other found m n k j.
          let (l, i, step) = each-In next claim.locks locks m each_ok k in
          Apart-inactive (release-IsKept l m at reason step).1)

  -- Leases that the search for conflicts let pass are apart from those of the others.
  checked-IsApart :
      (id : Text) (ns : List SemanticLock)
      → at.aware ≡ true
      → ((n : SemanticLock) → In n ns → IsNamed id n)
      → check_claims at ns (others id book) ≡ ok tt
      → IsApartFrom at.instant id ns book
  checked-IsApart id ns aware own e = λ b d other found.
      check_claims-AllApart at id ns (others id book) b d aware own other (x.sound b d found)
        (get-others id b d book other found) e

  pub prepare_reacquire-IsPrepared :
      (id agent_id session_id : Text) (lease_seconds : ℕ) (expected : Option Text) (c : Claim)
      → prepare_reacquire h codec id agent_id session_id at lease_seconds expected seen ≡ ok c
      → IsPrepared at book c
  unfolding prepare_reacquire
  prepare_reacquire-IsPrepared id agent_id session_id lease_seconds expected c e =
      let (snapshot, r, e1) = unbind {first = read_locked h seen} e in
      let (moved, e2) =
        uncheck
          {first = raise_if (has_moved h codec expected (head_digest snapshot))
            claim_precondition_changed}
          e1 in
      let (current, l, e3) = unbind {first = latest_claims codec snapshot} e2 in
      let same = snapshot_book snapshot current r l in
      let (claim, f, e4) = unbind {first = found codec (get id current)} e3 in
      let (owner, e5) = uncheck {first = require_owner claim agent_id session_id} e4 in
      let (state_now, s, e6) = unbind {first = claim_state_at claim at} e5 in
      let (lapsed, e7) =
        uncheck {first = raise_if (not (is_expired state_now)) claim_service_error} e6 in
      let next = λ (lock : SemanticLock). reacquire lock at (add_seconds at lease_seconds) in
      let (locks, each_ok, e8) = unbind {first = each next claim.locks} e7 in
      let (again, made, e9) = unbind {first = changed claim locks at} e8 in
      let (checked, e10) = uncheck {first = check_claims at locks (others id current)} e9 in
      let g : get id book ≡ some claim =
        ap (get id) (sym same) ∙ found-eq-ok codec (get id current) claim f in
      let is : again ≡ c = ok-injective again c e10 in
      let own : (m : SemanticLock) → In m locks → IsNamed id m = λ m k.
        let (l, i, step) = each-In next claim.locks locks m each_ok k in
        IsKept-IsNamed id claim l m g i (reacquire-IsKept l m at _ step) in
      kept-IsPrepared id claim c locks g (made ∙ ap ok is) own (
        checked-IsApart id locks (changed-eq-ok claim again locks at made).1 own
          (subst (λ k. check_claims at locks (others id k) ≡ ok tt) same checked))

  In-append-cases :
      (m : SemanticLock) (ls ns : List SemanticLock) → In m (ls ++ ns) → In m ls ⊎ In m ns
  In-append-cases m [] ns k = inr k
  In-append-cases m (l ∷ ls) ns (inl e) = inl (inl e)
  In-append-cases m (l ∷ ls) ns (inr k) = elim (In-append-cases m ls ns k) [
    | inl a ↦ inl (inr a)
    | inr b ↦ inr b
  ]

  pub widen-IsPrepared :
      (id : Text) (added : List Scope) (agent_id session_id : Text) (c : Claim) (fresh : List Scope)
      → widen h codec id added agent_id session_id at seen ≡ ok (c, fresh)
      → IsPrepared at book c
  unfolding widen
  widen-IsPrepared id added agent_id session_id c found_new e =
      let (snapshot, r, e1) = unbind {first = read_locked h seen} e in
      let (current, l, e2) = unbind {first = latest_claims codec snapshot} e1 in
      let same = snapshot_book snapshot current r l in
      let (claim, f, e3) = unbind {first = found codec (get id current)} e2 in
      let (owner, e4) = uncheck {first = require_owner claim agent_id session_id} e3 in
      let (state_now, s, e5) = unbind {first = claim_state_at claim at} e4 in
      let (running, e6) =
        uncheck {first = raise_if (not (is_active state_now)) claim_service_error} e5 in
      let fresh = genuinely_new h codec claim added in
      let (some_new, e7) = uncheck {first = raise_if (is_empty fresh) claim_service_error} e6 in
      let (expires_at, q, e8) = unbind {first = first_expiry h codec claim.locks} e7 in
      let (new_locks, leased, e9) =
        unbind
          {first = leases id agent_id session_id claim.change_set_id at expires_at
            (length claim.locks + 1) fresh}
          e8 in
      let (checked, e10) = uncheck {first = check_claims at new_locks (others id current)} e9 in
      let (wider, was_made, e11) =
        unbind {first = changed claim (claim.locks ++ new_locks) at} e10 in
      let made =
        was_made
        ∙ ap ok (
            ap (λ (pair : Claim × List Scope). pair.0)
              (ok-injective (wider, fresh) (c, found_new) e11)) in
      let g : get id book ≡ some claim =
        ap (get id) (sym same) ∙ found-eq-ok codec (get id current) claim f in
      let aware = (changed-eq-ok claim c (claim.locks ++ new_locks) at made).1 in
      let new_own =
        leases-IsNamed id agent_id session_id claim.change_set_id at expires_at
          (length claim.locks + 1) fresh new_locks leased in
      let new_apart =
        checked-IsApart id new_locks aware new_own
          (subst (λ k. check_claims at new_locks (others id k) ≡ ok tt) same checked) in
      let sound = x.sound id claim g in
      kept-IsPrepared id claim c (claim.locks ++ new_locks) g made
        (λ m k. elim (In-append-cases m claim.locks new_locks k) [
          | inl i ↦ subst (λ a. IsNamed a m) sound.named (sound.own m i)
          | inr i ↦ new_own m i
        ])
        (λ b d other found m n k j. elim (In-append-cases m claim.locks new_locks k) [
          | inl i ↦ Apart-later le (x.apart id b claim d other g found m n i j)
          | inr i ↦ new_apart b d other found m n i j
        ])

  -- A new claim, whose leases were made for it.
  pub prepare_acquire-IsPrepared :
      (claim c : Claim)
      → at.aware ≡ true
      → claim.updated_at ≡ at
      → ((n : SemanticLock) → In n claim.locks → IsNamed claim.id n)
      → prepare_acquire h codec claim at seen ≡ ok c
      → IsPrepared at book c
  unfolding prepare_acquire
  prepare_acquire-IsPrepared claim c aware updated own e =
      let (snapshot, r, e1) = unbind {first = read_locked h seen} e in
      let (current, l, e2) = unbind {first = latest_claims codec snapshot} e1 in
      let same = snapshot_book snapshot current r l in
      let (is_new, e3) =
        uncheck
          {first = raise_if (any (λ (item : Text × Claim). text_eq item.0 claim.id) current)
            claim_service_error}
          e2 in
      let (checked, e4) = uncheck {first = check_claims at claim.locks current} e3 in
      subst (IsPrepared at book) (ok-injective claim c e4) (record {
        sound = record { named = refl; own = own };
        updated = updated;
        apart = λ b d other found.
            check_claims-AllApart at claim.id claim.locks book b d aware own other
              (x.sound b d found) found
              (subst (λ k. check_claims at claim.locks k ≡ ok tt) same checked);
      })
