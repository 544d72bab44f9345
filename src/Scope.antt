-- ===== src/Scope.antt =====
-- src/weftmark/domain/scope.py: typed identities for file and semantic coordination scopes. A scope is
-- known by its kind and its normalized key.
pub mod Normalize
pub mod Record
mod Tests
use weft_mark.Prelude.{
  ℕ, Bool, true, false, ◌&&◌, ◌==◌, if◌then◌else◌, List, [], ◌∷◌, ◌++◌, Option, none, some, Text,
  codes, text_eq, ◌≡◌, arith, text_eq_iff, text_eq_comm, ◌↔◌, refl,
}

pub data ScopeKind : Type 0 where
  file contract boundary schema surface : ScopeKind

-- The members in the order of their definition: two kinds are the same if their places are.
abbrev pub place : ScopeKind → ℕ
place file = 0
place contract = 1
place boundary = 2
place schema = 3
place surface = 4

-- `first.kind is second.kind`
abbrev pub kind_eq : ScopeKind → ScopeKind → Bool
kind_eq a b = place a == place b

abbrev pub is_file : ScopeKind → Bool
is_file file = true
is_file _ = false

-- `kind.value`
unfoldable pub value : ScopeKind → Text
value file = codes "file"
value contract = codes "contract"
value boundary = codes "boundary"
value schema = codes "schema"
value surface = codes "surface"

pub record Scope : Type 0 where
  pub kind : ScopeKind
  pub key : Text
  pub display_label : Option Text

-- `scope.canonical`
unfoldable pub canonical : Scope → Text
unfolding value
canonical s = value s.kind ++ codes ":" ++ s.key

-- `first.identity == second.identity`, which is also `first == second`: the label is not compared.
abbrev pub same_identity : Scope → Scope → Bool
same_identity a b = kind_eq a.kind b.kind && text_eq a.key b.key

pub kind_eq_iff : (a b : ScopeKind) → (kind_eq a b ≡ true) ↔ (a ≡ b)
kind_eq_iff a b = (ground arith, λ e. rw e (ground arith))
