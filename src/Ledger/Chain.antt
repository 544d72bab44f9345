-- ===== src/Ledger/Chain.antt =====
-- What the validation of a ledger ensures: a chain of digests, which a head digest determines.
use weft_mark.Prelude.{
  ℕ, zero, suc, List, [], ◌∷◌, ◌++◌, Text, text_eq_iff, length, last?-append, length-snoc,
  In-append, In-last, Error, ok, err, ◌≡◌, ◌≢◌, Result-cases, ◌⊎◌, inl, inr, refl, sym, ap, ◌∙◌,
  arith, In,
}
use mathlib.Core.List.{append-nil, append_assoc}
use weft_mark.Ledger.{
  LedgerEntry, Hashing, genesis_digest, head_digest, entry_digest, check_entry, read_from,
  read_locked,
}

module _ (h : Hashing) where
  -- The entry continues a chain of so many entries with this head.
  pub record Continues (head : Text) (n : ℕ) (e : LedgerEntry) : Type 0 where
    pub sequence : e.sequence ≡ suc n
    pub previous : e.previous_digest ≡ head
    pub digest : e.digest ≡ entry_digest h (suc n) head e.draft

  -- The entries are a chain from the genesis digest, so many, with this head.
  pub data Chain : List LedgerEntry → Text → ℕ → Type 0 where
    empty : Chain [] genesis_digest zero
    extend :
        {es : List LedgerEntry} {head : Text} {n : ℕ} {e : LedgerEntry}
        → Chain es head n
        → Continues head n e
        → Chain (es ++ e ∷ []) e.digest (suc n)

  check_entry-Continues :
      (n : ℕ) (head : Text) (e : LedgerEntry)
      → check_entry h (suc n) head e ≡ ok tt
      → Continues head n e
  unfolding check_entry
  check_entry-Continues n head e c = record {
    sequence = ground arith;
    previous = ground (arith, text_eq_iff e.previous_digest head);
    digest = ground (arith, text_eq_iff e.digest (entry_digest h (suc n) head e.draft));
  }

  Continues-check_entry :
      (n : ℕ) (head : Text) (e : LedgerEntry)
      → Continues head n e
      → check_entry h (suc n) head e ≡ ok tt
  unfolding check_entry
  Continues-check_entry n head e c = ground (
    arith,
    c.sequence,
    text_eq_iff e.previous_digest head,
    c.previous,
    c.digest,
    text_eq_iff e.digest (entry_digest h (suc n) head e.draft),
  )

  read_from-cons :
      (n : ℕ) (head : Text) (e : LedgerEntry) (rest entries : List LedgerEntry)
      → read_from h n head (e ∷ rest) ≡ ok entries
      → (a : List LedgerEntry) × (check_entry h n head e ≡ ok tt)
        × (read_from h (suc n) e.digest rest ≡ ok a)
        × (entries ≡ e ∷ a)
  unfolding read_from
  read_from-cons n head e rest entries r = elim (Result-cases (read_from h (suc n) e.digest rest)) [
    | inl (a, reads) ↦ (a, ground (arith, reads), reads, ground (arith, reads))
    | inr (x, raises) ↦ absurd (ground (arith, raises))
  ]

  -- Reading returns the file, if anything.
  pub read_from-eq-ok :
      (n : ℕ) (head : Text) (file entries : List LedgerEntry)
      → read_from h n head file ≡ ok entries
      → entries ≡ file
  unfolding read_from
  read_from-eq-ok n head [] entries r = ground arith
  read_from-eq-ok n head (e ∷ rest) entries r =
      let (a, checked, reads, is) = read_from-cons n head e rest entries r in
      is ∙ ap (λ es. e ∷ es) (read_from-eq-ok (suc n) e.digest rest a reads)

  -- A file that reads back continues the chain before it.
  read_from-Chain :
      (n : ℕ) (head : Text) (before file entries : List LedgerEntry)
      → Chain before head n
      → read_from h (suc n) head file ≡ ok entries
      → (last : Text) × (m : ℕ) × Chain (before ++ file) last m
  read_from-Chain n head before [] entries c r = rw (append-nil before) (head, n, c)
  read_from-Chain n head before (e ∷ rest) entries c r =
      let (a, checked, reads, is) = read_from-cons (suc n) head e rest entries r in
      rw (← append_assoc before (e ∷ []) rest) (
        read_from-Chain (suc n) e.digest (before ++ e ∷ []) rest a
          (extend c (check_entry-Continues n head e checked)) reads)

  -- The head and the length of a chain.
  pub Chain-head :
      {es : List LedgerEntry} {head : Text} {n : ℕ} → Chain es head n → head ≡ head_digest es
  Chain-head empty = refl
  Chain-head (extend {es = es} {e = e} c k) = rw (last?-append es e) refl

  pub Chain-length : {es : List LedgerEntry} {head : Text} {n : ℕ} → Chain es head n → n ≡ length es
  Chain-length empty = refl
  Chain-length (extend {es = es} {e = e} c k) = ap suc (Chain-length c) ∙ sym (length-snoc es e)

  abbrev digest_at : LedgerEntry → Text
  digest_at e = entry_digest h e.sequence e.previous_digest e.draft

  -- What a collision-free digest gives for the entries of two files: equal digests have equal contents,
  -- and no digest is the genesis digest.
  pub record IsCollisionFree (es fs : List LedgerEntry) : Type 0 where
    pub injective :
        (e f : LedgerEntry)
        → In e es
        → In f fs
        → digest_at e ≡ digest_at f
        → (e.sequence ≡ f.sequence) × (e.previous_digest ≡ f.previous_digest) × (e.draft ≡ f.draft)
    pub left_fresh : (e : LedgerEntry) → In e es → digest_at e ≢ genesis_digest
    pub right_fresh : (f : LedgerEntry) → In f fs → digest_at f ≢ genesis_digest

  Continues-digest_at :
      {head : Text} {n : ℕ} {e : LedgerEntry} → Continues head n e → e.digest ≡ digest_at e
  Continues-digest_at {head} {n} {e} c =
      c.digest
      ∙ ap (λ s. entry_digest h s head e.draft) (sym c.sequence)
      ∙ ap (λ p. entry_digest h e.sequence p e.draft) (sym c.previous)

  IsCollisionFree-init :
      (es fs : List LedgerEntry) (e f : LedgerEntry)
      → IsCollisionFree (es ++ e ∷ []) (fs ++ f ∷ [])
      → IsCollisionFree es fs
  IsCollisionFree-init es fs e f free = record {
    injective = λ a b m k. free.injective a b (In-append a es _ m) (In-append b fs _ k);
    left_fresh = λ a m. free.left_fresh a (In-append a es _ m);
    right_fresh = λ b k. free.right_fresh b (In-append b fs _ k);
  }

  same_entry :
      (e f : LedgerEntry)
      → e.digest ≡ f.digest
      → (e.sequence ≡ f.sequence) × (e.previous_digest ≡ f.previous_digest) × (e.draft ≡ f.draft)
      → e ≡ f
  same_entry e f d c =
      λ i. record { sequence = c.0 i; previous_digest = c.1 i; digest = d i; draft = c.2 i }

  Chain-unique :
      {es fs : List LedgerEntry} {a b : Text} {n m : ℕ}
      → Chain es a n
      → Chain fs b m
      → a ≡ b
      → IsCollisionFree es fs
      → es ≡ fs
  Chain-unique empty empty same free = refl
  Chain-unique empty (extend {es = fs} {e = f} d k) same free =
      absurd (free.right_fresh f (In-last f fs) (sym (Continues-digest_at k) ∙ sym same))
  Chain-unique (extend {es = es} {e = e} c j) empty same free =
      absurd (free.left_fresh e (In-last e es) (sym (Continues-digest_at j) ∙ same))
  Chain-unique (extend {es = es} {e = e} c j) (extend {es = fs} {e = f} d k) same free =
      let equal =
        free.injective e f (In-last e es) (In-last f fs)
          (sym (Continues-digest_at j) ∙ same ∙ Continues-digest_at k) in
      let before =
        Chain-unique c d (sym j.previous ∙ equal.1 ∙ k.previous)
          (IsCollisionFree-init es fs e f free) in
      let last = same_entry e f same equal in λ i. before i ++ last i ∷ []

  pub read_locked-cases :
      (file : List LedgerEntry)
      → (read_locked h file ≡ ok file) ⊎ ((raised : Error) × (read_locked h file ≡ err raised))
  unfolding read_locked
  read_locked-cases file = elim (Result-cases (read_from h 1 genesis_digest file)) [
    | inl (a, reads) ↦ inl (reads ∙ ap ok (read_from-eq-ok 1 genesis_digest file a reads))
    | inr raises ↦ inr raises
  ]

  -- A file that reads back is a chain with the head digest of the file.
  pub read_locked-Chain :
      (file entries : List LedgerEntry)
      → read_locked h file ≡ ok entries
      → Chain file (head_digest file) (length file)
  unfolding read_locked
  read_locked-Chain file entries r =
      let (last, m, c) = read_from-Chain zero genesis_digest [] file entries empty r in
      rw (← Chain-head c) (rw (← Chain-length c) c)

  -- Two files that read back and have the same head digest are the same file, where the digest has no
  -- collision among their entries and never is the genesis digest: the head vouches for the
  -- whole history.
  pub head_determines_file :
      (file file' entries entries' : List LedgerEntry)
      → read_locked h file ≡ ok entries
      → read_locked h file' ≡ ok entries'
      → head_digest file ≡ head_digest file'
      → IsCollisionFree file file'
      → file ≡ file'
  head_determines_file file file' entries entries' r r' same free =
      Chain-unique (read_locked-Chain file entries r) (read_locked-Chain file' entries' r') same
        free
