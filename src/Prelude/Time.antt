-- ===== src/Prelude/Time.antt =====
-- Python's `datetime`. An aware value is known by its instant in UTC, a naive one by what it shows;
-- both are counted in microseconds.
use Prim.Native.Nat.{ℕ, ◌+◌, ◌*◌}
use mathlib.Core.Bool.{Bool, true, ◌&&◌, ◌||◌, not}
use mathlib.Core.Option.{Option, none, some}
use weft_mark.Prelude.Tests.{ltb, ◌==◌, if◌then◌else◌}
use weft_mark.Prelude.Errors.{Result, Error, ok, err, raise_if, ◌>>=◌, type_error}

pub record DateTime : Type 0 where
  pub instant : ℕ
  pub aware : Bool

abbrev pub utc : ℕ → DateTime
utc n = record { instant = n; aware = true }

abbrev pub same_awareness : DateTime → DateTime → Bool
same_awareness a b = (a.aware && b.aware) || (not a.aware && not b.aware)

-- `a < b`, which raises TypeError on an aware and a naive value.
abbrev pub precedes : DateTime → DateTime → Result Bool
precedes a b = if same_awareness a b then ok (ltb a.instant b.instant) else err type_error

-- `a == b`, which is false on an aware and a naive value.
abbrev pub same_time : DateTime → DateTime → Bool
same_time a b = same_awareness a b && a.instant == b.instant

-- `if a < b: raise e`
abbrev pub raise_if_before : DateTime → DateTime → Error → Result (Unit {0})
raise_if_before a b e = do early ← precedes a b; raise_if early e

-- `if a <= b: raise e`
abbrev pub raise_if_not_after : DateTime → DateTime → Error → Result (Unit {0})
raise_if_not_after a b e = do late ← precedes b a; raise_if (not late) e

-- `_require_aware(name, value)`, which raises the module's own error.
abbrev pub require_aware : Error → DateTime → Result (Unit {0})
require_aware e t = raise_if (not t.aware) e

-- `at or _now()`
abbrev pub or_now : Option DateTime → DateTime → DateTime
or_now none now = now
or_now (some t) now = t

-- `t + timedelta(seconds=n)`
abbrev pub add_seconds : DateTime → ℕ → DateTime
add_seconds t n = record t { instant = t.instant + n * 1_000_000 }
