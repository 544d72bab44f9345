-- ===== src/Claim/Keep.antt =====
-- The claims of a ledger are apart: the invariant, and how replacing one claim keeps it.
use mathlib.Core.Path.{subst}
use weft_mark.Prelude.{
  ℕ, ◌≤◌, true, false, some, List, [], ◌∷◌, Text, text_eq, text_eq_iff, text_eq_comm, DateTime, ok,
  ◌≡◌, ◌∙◌, sym, ap, refl, inl, inr, arith, In, Bool-cases, if◌then◌else◌, uncheck,
}
use weft_mark.Lock.{SemanticLock}
use weft_mark.Claim.{Claim}
use weft_mark.Claim.Book.{Book, get, put, others, check_locks, check_claims}
use weft_mark.Claim.Apart.{AllApart, Apart-later, Apart-comm, check_locks-AllApart}
use weft_mark.Claim.Names.{IsNamed, IsNamed-distinct}

-- The claim is kept under its id, and its leases are its own.
pub record IsSound (key : Text) (c : Claim) : Type 0 where
  pub named : c.id ≡ key
  pub own : (l : SemanticLock) → In l c.locks → IsNamed c.id l

-- From a time on, the leases of two claims in the book are apart.
pub record IsExclusive (start : ℕ) (book : Book) : Type 0 where
  pub sound : (a : Text) (c : Claim) → get a book ≡ some c → IsSound a c
  pub apart :
      (a b : Text) (c d : Claim)
      → text_eq a b ≡ false
      → get a book ≡ some c
      → get b book ≡ some d
      → AllApart start c.locks d.locks

get-put :
    (id : Text) (c : Claim) (key : Text) (book : Book)
    → get key (put id c book) ≡ (if text_eq id key then some c else get key book)
get-put id c key [] = refl
get-put id c key ((k, old) ∷ book) = elim (Bool-cases (text_eq k id)) [
  | inl same ↦ rw same (rw ((text_eq_iff k id).0 same) (ground arith))
  | inr other ↦ rw other (
      ground (
        arith,
        get-put id c key book,
        text_eq_iff k key,
        text_eq_iff id key,
        other,
        text_eq_comm k id,
      ))
]

pub get-others :
    (id key : Text) (c : Claim) (book : Book)
    → text_eq id key ≡ false
    → get key book ≡ some c
    → get key (others id book) ≡ some c
get-others id key c [] h g = g
get-others id key c ((k, old) ∷ book) h g =
    ground
      (arith, get-others id key c book, text_eq_iff k id, text_eq_iff k key, text_eq_comm key id)

pub IsExclusive-later : (s t : ℕ) (book : Book) → s ≤ t → IsExclusive s book → IsExclusive t book
IsExclusive-later s t book le x = record {
  sound = x.sound;
  apart = λ a b c d h g k l m i j. Apart-later le (x.apart a b c d h g k l m i j);
}

-- The leases are apart from those of every other claim.
abbrev pub IsApartFrom : ℕ → Text → List SemanticLock → Book → Type 0
IsApartFrom start id ls book =
    (b : Text) (d : Claim) → text_eq id b ≡ false → get b book ≡ some d → AllApart start ls d.locks

pub put-IsExclusive :
    (t : ℕ) (c : Claim) (book : Book)
    → IsExclusive t book
    → IsSound c.id c
    → IsApartFrom t c.id c.locks book
    → IsExclusive t (put c.id c book)
put-IsExclusive t c book x own clear = record {
  sound = λ a d g. sound_at a d (sym (get-put c.id c a book) ∙ g);
  apart = λ a b d e h g k.
      apart_at a b d e h (sym (get-put c.id c a book) ∙ g) (sym (get-put c.id c b book) ∙ k);
}
  where
    sound_at :
        (a : Text) (d : Claim)
        → (if text_eq c.id a then some c else get a book) ≡ some d
        → IsSound a d
    sound_at a d g = elim (Bool-cases (text_eq c.id a)) [
      | inl same ↦
          let is : c ≡ d = ground (arith, g, same) in
          let name = (text_eq_iff c.id a).0 same in
          subst (IsSound a) is (subst (λ k. IsSound k c) name own)
      | inr other ↦ x.sound a d (ground (arith, g, other))
    ]

    apart_at :
        (a b : Text) (d e : Claim)
        → text_eq a b ≡ false
        → (if text_eq c.id a then some c else get a book) ≡ some d
        → (if text_eq c.id b then some c else get b book) ≡ some e
        → AllApart t d.locks e.locks
    apart_at a b d e h g k = elim (Bool-cases (text_eq c.id a)) [
      | inl sa ↦ elim (Bool-cases (text_eq c.id b)) [
        | inl sb ↦
            let same = sym ((text_eq_iff c.id a).0 sa) ∙ (text_eq_iff c.id b).0 sb in
            absurd (ground (arith, h, (text_eq_iff a b).1 same))
        | inr nb ↦
            let is : c ≡ d = ground (arith, g, sa) in
            subst (λ (x : Claim). AllApart t x.locks e.locks) is
              (clear b e nb (ground (arith, k, nb)))
      ]
      | inr na ↦ elim (Bool-cases (text_eq c.id b)) [
        | inl sb ↦
            let is : c ≡ e = ground (arith, k, sb) in
            λ l m i j. Apart-comm (
              clear a d na (ground (arith, g, na)) m l
                (subst (λ (x : Claim). In m x.locks) (sym is) j) i)
        | inr nb ↦ x.apart a b d e h (ground (arith, g, na)) (ground (arith, k, nb))
      ]
    ]

-- The search for conflicts passes over a book: the leases are apart from those of each claim found there.
pub check_claims-AllApart :
    (at : DateTime) (id : Text) (ns : List SemanticLock) (book : Book) (b : Text) (d : Claim)
    → at.aware ≡ true
    → ((n : SemanticLock) → In n ns → IsNamed id n)
    → text_eq id b ≡ false
    → IsSound b d
    → get b book ≡ some d
    → check_claims at ns book ≡ ok tt
    → AllApart at.instant ns d.locks
unfolding check_claims
check_claims-AllApart at id ns [] b d aware named other sound g e = absurd (ground (arith, g))
check_claims-AllApart at id ns ((k, c) ∷ book) b d aware named other sound g e =
    let (first, rest) = uncheck {first = check_locks at ns c.locks} e in
    elim (Bool-cases (text_eq k b)) [
      | inl same ↦
          let is : c ≡ d = ground (arith, g, same) in
          let here : check_locks at ns d.locks ≡ ok tt =
            subst (λ (x : Claim). check_locks at ns x.locks ≡ ok tt) is first in
          let apart : text_eq id d.id ≡ false = ap (text_eq id) sound.named ∙ other in
          check_locks-AllApart at aware ns d.locks (λ n i. (named n i).valid)
            (λ n m i j. (
              (sound.own m j).valid,
              IsNamed-distinct id d.id n m apart (named n i) (sound.own m j),
            ))
            here
      | inr differs ↦
          check_claims-AllApart at id ns book b d aware named other sound
            (ground (arith, g, differs)) rest
    ]
