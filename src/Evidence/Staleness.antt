-- ===== src/Evidence/Staleness.antt =====
-- When evidence is stale, and what `mark_stale` does about it.
use weft_mark.Prelude.{
  true, false, ◌≤◌, [], Option, none, some, Text, text_eq_iff, is_empty, DateTime, or_now, ok, err,
  ◌≡◌, ◌↔◌, refl, arith, if◌then◌else◌, evidence_error, invalid_evidence_transition,
}
use weft_mark.Evidence.{
  Evidence, stale, is_allowed, post_init, fingerprint_of, differs, staleness, mark_stale, move,
}

-- A bound value and a current one agree, or one of them is not known.
abbrev pub Agrees : Option Text → Option Text → Type 0
Agrees (some bound) (some current) = bound ≡ current
Agrees _ _ = Unit

differs_iff : (a b : Option Text) → (differs a b ≡ false) ↔ Agrees a b
differs_iff none b = (λ h. tt, λ h. refl)
differs_iff (some a) none = (λ h. tt, λ h. refl)
differs_iff (some a) (some b) =
    (λ h. ground (arith, text_eq_iff b a), λ h. ground (arith, text_eq_iff b a))

staleness-nil :
    (e : Evidence) (commit environment : Option Text)
    → (staleness e commit environment ≡ []) ↔ (
        (differs e.bound_commit_sha commit ≡ false)
        × (differs (fingerprint_of e.environment) environment ≡ false))
unfolding staleness
staleness-nil e commit environment = (λ h. (ground arith, ground arith), λ h. ground arith)

-- Evidence has no reason to be stale if and only if its bound commit agrees with the current one and
-- its environment's fingerprint with the current one, where both of a pair are known.
pub staleness-nil_iff :
    (e : Evidence) (commit environment : Option Text)
    → (staleness e commit environment ≡ [])
      ↔ (Agrees e.bound_commit_sha commit × Agrees (fingerprint_of e.environment) environment)
staleness-nil_iff e commit environment =
    let (to, from) = staleness-nil e commit environment in
    (
      λ h. ((differs_iff _ _).0 (to h).0, (differs_iff _ _).0 (to h).1),
      λ h. from ((differs_iff _ _).1 h.0, (differs_iff _ _).1 h.1),
    )

-- On evidence that its constructor accepts, at an aware time not before its last update, `mark_stale`
-- refuses evidence whose bindings are current, then evidence whose state does not allow it, and
-- else records the reasons, the new state and the time, and changes nothing else.
pub mark_stale_outcome :
    (now : DateTime) (at : Option DateTime) (e : Evidence) (commit environment : Option Text)
    → post_init e ≡ ok e
    → (or_now at now).aware ≡ true
    → e.updated_at.instant ≤ (or_now at now).instant
    → mark_stale now commit environment at e ≡ (
        if is_empty (staleness e commit environment)
        then err evidence_error
        else if is_allowed e.state stale
        then ok (record e {
          state = stale;
          updated_at = or_now at now;
          stale_reasons = staleness e commit environment;
        })
        else err invalid_evidence_transition)
unfolding mark_stale move post_init
mark_stale_outcome now at e commit environment valid aware later = ground arith
