-- ===== src/Claim/Extension.antt =====
-- `extend_scope` of src/weftmark/application/claims.py: a claim and the declared scopes of its Change Set grow
-- together.
use mathlib.Core.Path.{subst}
use weft_mark.Prelude.{
  ℕ, zero, suc, ◌+◌, ◌<◌, true, ◌||◌, not, map, Bool-cases, some, List, [], ◌∷◌, ◌++◌, length,
  decimal, codes, is_empty, Text, text_eq, text_eq_iff, mem_text, DateTime, Result, ok, ◌>>=◌,
  raise_if, ◌≡◌, ◌∙◌, sym, ap, refl, inl, inr, ◌⊎◌, arith, In, unbind, uncheck, ok-injective,
  claim_service_error,
}
use weft_mark.Scope.{Scope, canonical}
use weft_mark.Scope.Normalize.{Unicode}
use weft_mark.ChangeSet.{ChangeSet}
use weft_mark.ChangeSet.Scopes.{mem-amend_scope}
use weft_mark.Lock.{SemanticLock, acquire, is_active}
use weft_mark.Ledger.{Hashing, LedgerEntry, read_locked}
use weft_mark.Ledger.Chain.{IsCollisionFree}
use weft_mark.Ledger.Store.{Moment, Codec}
use weft_mark.Binding.{ChangeBinding}
use weft_mark.Binding
use weft_mark.Binding.Shown
use weft_mark.Binding.Observe.{Git}
use weft_mark.Workspace.{Stored, require_change_set, amend_scope}
use weft_mark.Workspace.Kept.{amend_scope-record_binding, record_binding-IsKept}
use weft_mark.Claim.{Claim, require_owner, claim_state_at}
use weft_mark.Claim.Book.{get, others, check_claims, latest_claims, found}
use weft_mark.Claim.Service.{leases, changed, first_expiry, genuinely_new, append_claim, widen}
use weft_mark.Claim.Operations.{extend_attempts, extend_claim}
use weft_mark.Claim.Names.{acquire-eq-ok}
use weft_mark.Claim.Prepared.{changed-eq-ok}
use weft_mark.Claim.Landing.{IsFaithful}
use weft_mark.Claim.Run.{Prepares, Step}
use weft_mark.Claim.Lands.{IsPut, append_claim-IsPut}
use weft_mark.Claim.Attempts.{retry_or-eq-ok}

-- Some lease of the list is on the scope.
abbrev pub IsHeld : Scope → List SemanticLock → Type 0
IsHeld scope ls = (l : SemanticLock) × In l ls × (l.scope ≡ scope)

module _ (id agent_id session_id change_set_id : Text) (at expires_at : DateTime) where
  leases-IsHeld :
      (index : ℕ) (scopes : List Scope) (ls : List SemanticLock) (scope : Scope)
      → leases id agent_id session_id change_set_id at expires_at index scopes ≡ ok ls
      → In scope scopes
      → IsHeld scope ls
  unfolding leases
  leases-IsHeld index [] ls scope e m = absurd m
  leases-IsHeld index (first_scope ∷ scopes) ls scope e m =
      let (lock, first, e1) =
        unbind
          {first = acquire (id ++ codes ":" ++ decimal index) first_scope agent_id session_id
            change_set_id at expires_at}
          e in
      let (locks, rest, e2) =
        unbind
          {first = leases id agent_id session_id change_set_id at expires_at (suc index) scopes}
          e1 in
      let is : lock ∷ locks ≡ ls = ok-injective (lock ∷ locks) ls e2 in
      subst (IsHeld scope) is (elim m [
        | inl same ↦
            let (_, _, on, _) =
              acquire-eq-ok (id ++ codes ":" ++ decimal index) first_scope agent_id session_id
                change_set_id at expires_at lock first in
            (lock, inl refl, on ∙ sym same)
        | inr later ↦
            let (l, i, on) = leases-IsHeld (suc index) scopes locks scope rest later in
            (l, inr i, on)
      ])

In-append_right : {A : Type 0} (x : A) (xs ys : List A) → In x ys → In x (xs ++ ys)
In-append_right x [] ys m = m
In-append_right x (y ∷ xs) ys m = inr (In-append_right x xs ys m)

mem_text-map-canonical :
    (s : Text) (scopes : List Scope)
    → mem_text s (map canonical scopes) ≡ true
    → (scope : Scope) × In scope scopes × (canonical scope ≡ s)
mem_text-map-canonical s [] e = cc
mem_text-map-canonical s (scope ∷ scopes) e = elim (Bool-cases (text_eq s (canonical scope))) [
  | inl same ↦ (scope, inl refl, sym ((text_eq_iff s (canonical scope)).0 same))
  | inr other ↦
      let (found, i, is) = mem_text-map-canonical s scopes (ground (arith, e, other)) in
      (found, inr i, is)
]

module _ (h : Hashing) (codec : Codec Claim) (git : Git) (bindings : Codec ChangeBinding)
    (u : Unicode) where
  widen-IsHeld :
      (id : Text) (added : List Scope) (agent_id session_id : Text) (at : DateTime)
      (seen : List LedgerEntry) (c : Claim) (new_ones : List Scope) (scope : Scope)
      → widen h codec id added agent_id session_id at seen ≡ ok (c, new_ones)
      → In scope new_ones
      → IsHeld scope c.locks
  unfolding widen
  widen-IsHeld id added agent_id session_id at seen c new_ones scope e m =
      let (snapshot, r, e1) = unbind {first = read_locked h seen} e in
      let (current, l, e2) = unbind {first = latest_claims codec snapshot} e1 in
      let (claim, f, e3) = unbind {first = found codec (get id current)} e2 in
      let (owner, e4) = uncheck {first = require_owner claim agent_id session_id} e3 in
      let (state_now, s, e5) = unbind {first = claim_state_at claim at} e4 in
      let (running, e6) =
        uncheck {first = raise_if (not (is_active state_now)) claim_service_error} e5 in
      let fresh_ones = genuinely_new h codec claim added in
      let (some_new, e7) =
        uncheck {first = raise_if (is_empty fresh_ones) claim_service_error} e6 in
      let (expires_at, q, e8) = unbind {first = first_expiry h codec claim.locks} e7 in
      let (new_locks, leased, e9) =
        unbind
          {first = leases id agent_id session_id claim.change_set_id at expires_at
            (length claim.locks + 1) fresh_ones}
          e8 in
      let (checked, e10) = uncheck {first = check_claims at new_locks (others id current)} e9 in
      let (wider, made, e11) = unbind {first = changed claim (claim.locks ++ new_locks) at} e10 in
      let same = ok-injective (wider, fresh_ones) (c, new_ones) e11 in
      let is : c.locks ≡ claim.locks ++ new_locks =
        ap (λ (p : Claim × List Scope). p.0.locks) (sym same)
        ∙ ap (λ (x : Claim). x.locks)
            (changed-eq-ok claim wider (claim.locks ++ new_locks) at made).0 in
      let (l, i, on) =
        leases-IsHeld id agent_id session_id claim.change_set_id at expires_at
          (length claim.locks + 1) fresh_ones new_locks scope leased
          (subst (In scope) (ap (λ (p : Claim × List Scope). p.1) (sym same)) m) in
      (l, subst (In l) (sym is) (In-append_right l claim.locks new_locks i), on)

  -- The attempt that was the last one, and the amendment after it.
  record Extended (prepare : List LedgerEntry → Result (Claim × List Scope)) (reason : Text)
      (at : DateTime) (meanwhile : List LedgerEntry → Moment) (world : ℕ → Moment) (to : ℕ)
      (c : Claim) (b : ChangeBinding) (longer : List LedgerEntry) : Type 0 where
    attempt : ℕ
    before : attempt < to
    new_ones : List Scope
    file : List LedgerEntry
    prepared : prepare (world attempt).seen ≡ ok (c, new_ones)
    appended : append_claim h codec c (world attempt) ≡ ok file
    amended :
        amend_scope git h bindings c.change_set_id new_ones reason at (meanwhile file)
        ≡ ok (b, longer)

  extend_attempts-Extended :
      (prepare : List LedgerEntry → Result (Claim × List Scope)) (reason : Text) (at : DateTime)
      (meanwhile : List LedgerEntry → Moment) (world : ℕ → Moment) (left k : ℕ) (c : Claim)
      (b : ChangeBinding) (longer : List LedgerEntry)
      → extend_attempts h codec git bindings prepare reason at meanwhile world left k
        ≡ ok (c, b, longer)
      → Extended prepare reason at meanwhile world (k + left) c b longer
  unfolding extend_attempts
  extend_attempts-Extended prepare reason at meanwhile world zero k c b longer e = cc
  extend_attempts-Extended prepare reason at meanwhile world (suc left) k c b longer e =
      let later =
        extend_attempts h codec git bindings prepare reason at meanwhile world left (suc k) in
      let ((claim, new_ones), prepared, e1) = unbind {first = prepare (world k).seen} e in
      let done : List LedgerEntry → Result (Claim × ChangeBinding × List LedgerEntry) = λ f.
        amend_scope git h bindings claim.change_set_id new_ones reason at (meanwhile f)
        >>= λ (x : Stored). ok (claim, x.0, x.1) in
      elim (retry_or-eq-ok (append_claim h codec claim (world k)) done later (c, b, longer) e1) [
        | inl (f, appended, is_done) ↦
            let ((binding, wider), amended, e2) =
              unbind
                {first = amend_scope git h bindings claim.change_set_id new_ones reason at
                  (meanwhile f)}
                is_done in
            let same = ok-injective (claim, binding, wider) (c, b, longer) e2 in
            let is : claim ≡ c = ap (λ (p : Claim × ChangeBinding × List LedgerEntry). p.0) same in
            let stored : Claim × ChangeBinding × List LedgerEntry → Result Stored =
              λ p. ok (p.1, p.2) in
            record {
              attempt = k;
              before = omega arith;
              new_ones = new_ones;
              file = f;
              prepared = prepared ∙ ap (λ x. ok (x, new_ones)) is;
              appended = ap (λ x. append_claim h codec x (world k)) (sym is) ∙ appended;
              amended =
                  ap
                    (λ (x : Claim).
                      amend_scope git h bindings x.change_set_id new_ones reason at (meanwhile f))
                    (sym is)
                  ∙ amended
                  ∙ ap stored same;
            }
        | inr (_, next) ↦
            let x =
              extend_attempts-Extended prepare reason at meanwhile world left (suc k) c b longer
                next in
            record {
              attempt = x.attempt;
              before = omega (arith, x.before);
              new_ones = x.new_ones;
              file = x.file;
              prepared = x.prepared;
              appended = x.appended;
              amended = x.amended;
            }
      ]

  amend_scope-declares :
      (id : Text) (added : List Scope) (reason : Text) (at : DateTime) (moment : Moment)
      (b : ChangeBinding) (longer : List LedgerEntry)
      → amend_scope git h bindings id added reason at moment ≡ ok (b, longer)
      → (current : ChangeBinding) × (require_change_set git h bindings moment.seen id ≡ ok current)
        × ((s : Text)
            → mem_text s b.change_set.scopes
              ≡ (mem_text s current.change_set.scopes || mem_text s (map canonical added)))
  amend_scope-declares id added reason at moment b longer e =
      let (current, changed_set, amended, is_current, is_changed, is_amended, is_kept) =
        amend_scope-record_binding git h bindings id added reason at moment b longer e in
      let is : b.change_set ≡ changed_set =
        ap (λ (x : ChangeBinding). x.change_set)
          (sym (record_binding-IsKept git h bindings amended b at moment.found longer is_kept).0
            ∙ Binding.Shown.post_init-eq-ok git.resolve
                (record current { change_set = changed_set }) amended is_amended) in
      (
        current,
        is_current,
        λ s.
            ap (λ (x : ChangeSet). mem_text s x.scopes) is
            ∙ (mem-amend_scope at (some at) current.change_set changed_set (map canonical added)
                reason s is_changed).0,
      )

  -- Take an extension that returns a claim and a binding, where no two digests of a snapshot and the file
  -- that its append found collide and the claim reads back as it was written. Then one of the
  -- eight attempts appended to the file that it found, as a step, and the claims of the file after
  -- it are those of the found one with the returned claim put under its id. And each scope that the new
  -- binding declares was declared by the binding that the amendment started from, or a lease of
  -- the claim is on it.
  pub extension_is_held :
      (id : Text) (added : List Scope) (reason agent_id session_id : Text) (at : DateTime)
      (meanwhile : List LedgerEntry → Moment) (world : ℕ → Moment) (c : Claim) (b : ChangeBinding)
      (longer : List LedgerEntry)
      → ((k : ℕ) → IsCollisionFree h (world k).found (world k).seen)
      → IsFaithful h codec c
      → extend_claim h codec git bindings id added reason agent_id session_id at meanwhile world
        ≡ ok (c, b, longer)
      → (k : ℕ) × (k < 8)
        × (file : List LedgerEntry) × Step h codec u (world k).found file at.instant
        × IsPut codec c (world k).found file
        × (current : ChangeBinding) × (require_change_set git h bindings
              (meanwhile file).seen
              c.change_set_id
            ≡ ok current)
        × ((s : Text)
            → mem_text s b.change_set.scopes ≡ true
            → (mem_text s current.change_set.scopes ≡ true)
              ⊎ ((l : SemanticLock) × In l c.locks × (canonical l.scope ≡ s)))
  unfolding extend_claim
  extension_is_held id added reason agent_id session_id at meanwhile world c b longer free faithful
        e =
      let (_, e1) = uncheck {first = raise_if (is_empty added) claim_service_error} e in
      let prepare = widen h codec id added agent_id session_id at in
      let x = extend_attempts-Extended prepare reason at meanwhile world 8 0 c b longer e1 in
      let (current, is_current, declares) =
        amend_scope-declares c.change_set_id x.new_ones reason at (meanwhile x.file) b longer
          x.amended in
      (
        x.attempt,
        x.before,
        x.file,
        Step.of_claim (world x.attempt).seen at c
            (Prepares.by_extend id added x.new_ones agent_id session_id x.prepared) x.appended
            (free x.attempt) faithful,
        append_claim-IsPut h codec u (world x.attempt).seen (world x.attempt).found x.file at c
            (Prepares.by_extend id added x.new_ones agent_id session_id x.prepared) x.appended
            (free x.attempt) faithful,
        current,
        is_current,
        λ s is_declared. elim (Bool-cases (mem_text s current.change_set.scopes)) [
          | inl before ↦ inl before
          | inr after ↦
              let among : mem_text s (map canonical x.new_ones) ≡ true =
                ground (arith, declares s, is_declared, after) in
              let (scope, i, is) = mem_text-map-canonical s x.new_ones among in
              let (l, j, on) =
                widen-IsHeld id added agent_id session_id at (world x.attempt).seen c x.new_ones
                  scope x.prepared i in
              inr (l, j, ap canonical on ∙ is)
        ],
      )
