-- ===== src/Evidence/Outcomes.antt =====
-- What a successful operation on evidence returns, with `post_init` shut.
use weft_mark.Prelude.{
  true, false, Option, some, Text, DateTime, or_now, ok, ◌≡◌, ◌≤◌, arith, is_empty,
}
use weft_mark.Evidence.{
  Evidence, EvidenceState, running, passed, failed, unavailable, stale, superseded, is_allowed,
  post_init, move, staleness, start, pass, fail, mark_unavailable, mark_stale, supersede,
}

post_init-eq-ok : (e f : Evidence) → post_init e ≡ ok f → f ≡ e
unfolding post_init
post_init-eq-ok e f h = ground arith

-- The table allows the target, and the clock's or the caller's time is not before the last update.
pub record IsAdmitted (now : DateTime) (at : Option DateTime) (e : Evidence) (state : EvidenceState)
    : Type 0 where
  pub legal : is_allowed e.state state ≡ true
  pub later : e.updated_at.instant ≤ (or_now at now).instant

-- Evidence that was completed: its verdict, detail and time.
abbrev pub completed : DateTime → Evidence → EvidenceState → Option Text → Evidence
completed timestamp e state detail = record e {
  state = state;
  detail = detail;
  updated_at = timestamp;
  completed_at = some timestamp;
}

module _ (now : DateTime) (at : Option DateTime) (e f : Evidence) where
  pub start-eq-ok :
      start now at e ≡ ok f
      → IsAdmitted now at e running
        × (f ≡ record e {
          state = running;
          updated_at = or_now at now;
          started_at = some (or_now at now);
        })
  unfolding start move
  start-eq-ok h = ground (
    arith,
    post_init-eq-ok
        (record e {
          state = running;
          updated_at = or_now at now;
          started_at = some (or_now at now);
        })
        f,
  )

  pub pass-eq-ok :
      (detail : Option Text)
      → pass now detail at e ≡ ok f
      → IsAdmitted now at e passed × (f ≡ completed (or_now at now) e passed detail)
  unfolding pass move
  pass-eq-ok detail h =
      ground (arith, post_init-eq-ok (completed (or_now at now) e passed detail) f)

  pub fail-eq-ok :
      (detail : Text)
      → fail now detail at e ≡ ok f
      → IsAdmitted now at e failed × (f ≡ completed (or_now at now) e failed (some detail))
  unfolding fail move
  fail-eq-ok detail h =
      ground (arith, post_init-eq-ok (completed (or_now at now) e failed (some detail)) f)

  pub mark_unavailable-eq-ok :
      (reason : Text)
      → mark_unavailable now reason at e ≡ ok f
      → IsAdmitted now at e unavailable
        × (f ≡ completed (or_now at now) e unavailable (some reason))
  unfolding mark_unavailable move
  mark_unavailable-eq-ok reason h =
      ground (arith, post_init-eq-ok (completed (or_now at now) e unavailable (some reason)) f)

  pub mark_stale-eq-ok :
      (commit environment : Option Text)
      → mark_stale now commit environment at e ≡ ok f
      → IsAdmitted now at e stale
        × (is_empty (staleness e commit environment) ≡ false)
        × (f ≡ record e {
          state = stale;
          updated_at = or_now at now;
          stale_reasons = staleness e commit environment;
        })
  unfolding mark_stale move
  mark_stale-eq-ok commit environment h = ground (
    arith,
    post_init-eq-ok
        (record e {
          state = stale;
          updated_at = or_now at now;
          stale_reasons = staleness e commit environment;
        })
        f,
  )

  pub supersede-eq-ok :
      supersede now at e ≡ ok f
      → IsAdmitted now at e superseded
        × (f ≡ record e { state = superseded; updated_at = or_now at now })
  unfolding supersede move
  supersede-eq-ok h =
      ground
        (arith, post_init-eq-ok (record e { state = superseded; updated_at = or_now at now }) f)
