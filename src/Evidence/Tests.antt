-- ===== src/Evidence/Tests.antt =====
-- Runs of evidence.py on small inputs, and its theorems at them.
use weft_mark.Prelude.{
  [], ◌∷◌, none, some, codes, text_eq, text_lt, is_space, lstrip, strip, is_blank, utc, ok, ◌≡◌,
  ◌≤◌, ◌⊎◌, refl,
}
use weft_mark.Evidence.{
  Evidence, test, worker, commit, declared, running, passed, stale, superseded, post_init, declare,
  move, is_allowed, staleness, start, pass, fail, mark_unavailable, mark_stale, supersede,
  commit_changed, environment_changed,
}
use weft_mark.Evidence.Lifecycle.{
  Reach, here, next, by_start, by_pass, by_stale, by_supersede, Reach-le-four, IsKept,
  verdict-IsKept,
}

-- What a run has to see through.
program : Unit {0}
unfolding post_init declare move is_allowed staleness start pass fail mark_unavailable mark_stale
    supersede is_blank strip lstrip is_space text_eq text_lt
program = tt

abbrev fresh : Evidence
fresh = record {
  id = codes "e1";
  kind = test;
  producer = record { kind = worker; id = codes "w" };
  subject = record { kind = commit; id = codes "c1" };
  bound_commit_sha = some (codes "c1");
  environment = some (record { fingerprint = codes "py312"; description = none });
  command = none;
  artifacts = [];
  state = declared;
  detail = none;
  stale_reasons = [];
  created_at = utc 1;
  updated_at = utc 1;
  started_at = none;
  completed_at = none;
}

declare-fresh :
    declare
      (utc 1)
      (codes "e1")
      test
      (record { kind = worker; id = codes "w" })
      (record { kind = commit; id = codes "c1" })
      (some (codes "c1"))
      (some (record { fingerprint = codes "py312"; description = none }))
      none
      []
      none
    ≡ ok fresh
unfolding program
declare-fresh = refl

abbrev begun : Evidence
begun = record fresh { state = running; updated_at = utc 2; started_at = some (utc 2) }

start-fresh : start (utc 2) none fresh ≡ ok begun
unfolding program
start-fresh = refl

abbrev green : Evidence
green = record begun {
  state = passed;
  updated_at = utc 3;
  detail = some (codes "ok");
  completed_at = some (utc 3);
}

pass-begun : pass (utc 3) (some (codes "ok")) none begun ≡ ok green
unfolding program
pass-begun = refl

abbrev old : Evidence
old = record green {
  state = stale;
  updated_at = utc 4;
  stale_reasons = commit_changed ∷ environment_changed ∷ [];
}

stale-green : mark_stale (utc 4) (some (codes "c2")) (some (codes "py313")) none green ≡ ok old
unfolding program
stale-green = refl

abbrev gone : Evidence
gone = record old { state = superseded; updated_at = utc 5 }

supersede-old : supersede (utc 5) none old ≡ ok gone
unfolding program
supersede-old = refl

-- The longest life there is.
life : Reach fresh 4 gone
life =
    next
      (next
        (next (next here (by_start (utc 2) none start-fresh))
          (by_pass (utc 3) none (some (codes "ok")) pass-begun))
        (by_stale (utc 4) none (some (codes "c2")) (some (codes "py313")) stale-green))
      (by_supersede (utc 5) none supersede-old)

Reach-le-four_example : 4 ≤ 4
Reach-le-four_example = Reach-le-four fresh gone 4 life

verdict-IsKept_example :
    IsKept green old
    × ((old.state ≡ green.state) ⊎ ((old.state ≡ stale) ⊎ (old.state ≡ superseded)))
verdict-IsKept_example =
    verdict-IsKept green old 1 refl
      (next here (by_stale (utc 4) none (some (codes "c2")) (some (codes "py313")) stale-green))

green_valid : post_init green ≡ ok green
unfolding program
green_valid = refl
