-- ===== src/Lock/Conflict.antt =====
-- Conflicts between scopes and between leases do not depend on which side asks.
use weft_mark.Prelude.{
  Bool, true, ◌&&◌, not, ltb, text_eq, text_eq_comm, text_eq_refl, Text, DateTime, ok, ◌≡◌, arith,
}
use weft_mark.Scope.{Scope}
use weft_mark.Lock.{SemanticLock, is_active, post_init, conflicts_with, owns_scope_at, state_at}
use weft_mark.Lock.Overlap.{scopes_overlap, file_scopes_overlap}

file_scopes_overlap_comm : (a b : Text) → file_scopes_overlap a b ≡ file_scopes_overlap b a
unfolding file_scopes_overlap
file_scopes_overlap_comm a b = ground (arith, text_eq_comm a b)

-- Whether two scopes compete does not depend on their order.
pub scopes_overlap_comm : (a b : Scope) → scopes_overlap a b ≡ scopes_overlap b a
unfolding scopes_overlap
scopes_overlap_comm a b =
    ground (arith, file_scopes_overlap_comm a.key b.key, text_eq_comm a.key b.key)

-- A scope competes with itself.
pub scopes_overlap_refl : (a : Scope) → scopes_overlap a a ≡ true
unfolding scopes_overlap file_scopes_overlap
scopes_overlap_refl a = ground (arith, text_eq_refl a.key)

-- At an aware time, a lease that its constructor accepts owns its scope exactly if its recorded state
-- is active and the time is before its expiry.
pub owns_scope_at_lem :
    (l : SemanticLock) (at : DateTime)
    → post_init l ≡ ok l
    → at.aware ≡ true
    → owns_scope_at l at ≡ ok (is_active l.state && ltb at.instant l.expires_at.instant)
unfolding owns_scope_at state_at post_init
owns_scope_at_lem l at valid aware = ground arith

-- The two leases conflict: they are different ones, both own their scope, and the scopes compete.
abbrev pub is_conflict : SemanticLock → SemanticLock → DateTime → Bool
is_conflict a b at =
    not (text_eq a.id b.id)
    && ((is_active a.state && ltb at.instant a.expires_at.instant)
        && ((is_active b.state && ltb at.instant b.expires_at.instant)
            && scopes_overlap a.scope b.scope))

-- Between two leases that their constructor accepts, at an aware time, the conflict test answers from
-- both sides, with the same answer: whether they are different leases, both active and not
-- yet expired, on competing scopes.
pub conflicts_with_comm :
    (a b : SemanticLock) (at : DateTime)
    → post_init a ≡ ok a
    → post_init b ≡ ok b
    → at.aware ≡ true
    → (conflicts_with a b at ≡ ok (is_conflict a b at))
      × (conflicts_with b a at ≡ ok (is_conflict a b at))
unfolding conflicts_with
conflicts_with_comm a b at va vb aware =
    let em = owns_scope_at_lem a at va aware in
    let et = owns_scope_at_lem b at vb aware in
    (
      ground (arith, em, et),
      ground (arith, em, et, text_eq_comm a.id b.id, scopes_overlap_comm a.scope b.scope),
    )
