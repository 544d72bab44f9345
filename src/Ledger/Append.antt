-- ===== src/Ledger/Append.antt =====
-- What appending does: the longer file reads back, and of two writers with one expectation one fails.
use weft_mark.Prelude.{
  ℕ, suc, ◌+◌, true, false, List, [], ◌∷◌, ◌++◌, Text, text_eq, text_eq_refl, length, last?-append,
  Result-cases, ok, err, ◌≡◌, inl, inr, refl, sym, ap, ◌∙◌, arith, ledger_head_changed,
  if◌then◌else◌,
}
use weft_mark.Ledger.{
  LedgerDraft, LedgerEntry, Hashing, genesis_digest, head_digest, digest_of, entry_digest,
  check_entry, read_from, read_locked, append_locked, append, append_if_head, entry_post_init,
  is_digest,
}
use weft_mark.Ledger.Chain.{
  read_locked-cases, read_from-eq-ok, Chain, read_locked-Chain, empty, extend,
}

-- The digest before the next entry, where the file stands behind a digest.
abbrev digest_behind : Text → List LedgerEntry → Text
digest_behind head [] = head
digest_behind head (e ∷ file) = digest_behind e.digest file

digest_behind_genesis :
    (file : List LedgerEntry) → head_digest file ≡ digest_behind genesis_digest file
digest_behind_genesis [] = refl
digest_behind_genesis (e ∷ file) = behind e file
  where
    behind :
        (e : LedgerEntry) (file : List LedgerEntry)
        → head_digest (e ∷ file) ≡ digest_behind e.digest file
    behind e [] = refl
    behind e (f ∷ file) = behind f file

module _ (h : Hashing) where
  read_from-snoc :
      (n : ℕ) (head : Text) (file : List LedgerEntry) (e : LedgerEntry)
      → read_from h n head file ≡ ok file
      → check_entry h (length file + n) (digest_behind head file) e ≡ ok tt
      → read_from h n head (file ++ e ∷ []) ≡ ok (file ++ e ∷ [])
  unfolding read_from
  read_from-snoc n head [] e r c = ground (arith, c)
  read_from-snoc n head (f ∷ file) e r c = elim (Result-cases (read_from h (suc n) f.digest file)) [
    | inl (a, reads) ↦
        let back = reads ∙ ap ok (read_from-eq-ok h (suc n) f.digest file a reads) in
        let place : length file + suc n ≡ suc (length file) + n = omega arith in
        let last = ap (λ k. check_entry h k (digest_behind f.digest file) e) place ∙ c in
        ground (arith, back, read_from-snoc (suc n) f.digest file e back last)
    | inr (x, raises) ↦ absurd (ground (arith, raises))
  ]

  -- The entry that is appended to a file.
  abbrev pub next_entry : List LedgerEntry → LedgerDraft → LedgerEntry
  next_entry file draft = record {
    sequence = length file + 1;
    previous_digest = head_digest file;
    digest = entry_digest h (length file + 1) (head_digest file) draft;
    draft = draft;
  }

  append-eq-ok :
      (file file' : List LedgerEntry) (draft : LedgerDraft) (entry : LedgerEntry)
      → append h file draft ≡ ok (entry, file')
      → (read_locked h file ≡ ok file)
        × (entry ≡ next_entry file draft)
        × (file' ≡ file ++ next_entry file draft ∷ [])
  unfolding append append_locked entry_post_init
  append-eq-ok file file' draft entry r = elim (read_locked-cases h file) [
    | inl reads ↦ (reads, ground (arith, reads), ground (arith, reads))
    | inr (x, raises) ↦ absurd (ground (arith, raises))
  ]

  next_entry-checks :
      (file : List LedgerEntry) (draft : LedgerDraft)
      → check_entry h (length file + 1) (digest_behind genesis_digest file) (next_entry file draft)
        ≡ ok tt
  unfolding check_entry
  next_entry-checks file draft = rw (digest_behind_genesis file) (
      ground (
        arith,
        text_eq_refl (digest_behind genesis_digest file),
        text_eq_refl (entry_digest h (length file + 1) (digest_behind genesis_digest file) draft),
      ))

  -- After a successful append the file is the old one, which read back, with one entry behind it: the
  -- draft, numbered by its position and chained to the former head. The longer file reads back.
  pub append_reads_back :
      (file file' : List LedgerEntry) (draft : LedgerDraft) (entry : LedgerEntry)
      → append h file draft ≡ ok (entry, file')
      → (read_locked h file ≡ ok file)
        × (entry ≡ next_entry file draft)
        × (file' ≡ file ++ entry ∷ [])
        × (read_locked h file' ≡ ok file')
  unfolding read_locked
  append_reads_back file file' draft entry r =
      let (reads, is, longer) = append-eq-ok file file' draft entry r in
      (
        reads,
        is,
        longer ∙ ap (λ e. file ++ e ∷ []) (sym is),
        rw longer (
            read_from-snoc 1 genesis_digest file (next_entry file draft) reads
              (next_entry-checks file draft)),
      )

  -- On a file that reads back, the conditional append is the append if the expected digest is that of the
  -- head, and else raises LedgerHeadChanged.
  pub append_if_head_outcome :
      (file : List LedgerEntry) (draft : LedgerDraft) (expected : Text)
      → read_locked h file ≡ ok file
      → append_if_head h file draft expected ≡ (
          if text_eq (head_digest file) expected
          then append h file draft
          else err ledger_head_changed)
  unfolding append_if_head append
  append_if_head_outcome file draft expected reads = ground (arith, reads)

  pub append_of_append_if_head :
      (file file' : List LedgerEntry) (draft : LedgerDraft) (expected : Text) (entry : LedgerEntry)
      → append_if_head h file draft expected ≡ ok (entry, file')
      → append h file draft ≡ ok (entry, file')
  unfolding append_if_head append
  append_of_append_if_head file file' draft expected entry r = elim (read_locked-cases h file) [
    | inl reads ↦ ground (arith, reads)
    | inr (x, raises) ↦ absurd (ground (arith, raises))
  ]

  -- Of two writers that expect the same head, the second fails: after one conditional append succeeded
  -- with an entry whose digest is not the expected one, a conditional append of any other draft
  -- with the same expectation raises LedgerHeadChanged.
  pub second_writer_fails :
      (file file' : List LedgerEntry) (draft draft' : LedgerDraft) (expected : Text)
      (entry : LedgerEntry)
      → append_if_head h file draft expected ≡ ok (entry, file')
      → text_eq entry.digest expected ≡ false
      → append_if_head h file' draft' expected ≡ err ledger_head_changed
  second_writer_fails file file' draft draft' expected entry r moved =
      let (reads, is, longer, back) =
        append_reads_back file file' draft entry
          (append_of_append_if_head file file' draft expected entry r) in
      let head : head_digest file' ≡ entry.digest =
        ap head_digest longer ∙ ap digest_of (last?-append file entry) in
      append_if_head_outcome file' draft' expected back ∙ rw head (rw moved refl)

  entry_digest-is_digest :
      ((t : Text) → is_digest (h.sha256 t) ≡ true)
      → (n : ℕ) (head : Text) (draft : LedgerDraft) → is_digest (entry_digest h n head draft) ≡ true
  unfolding entry_digest
  entry_digest-is_digest hex n head draft = hex (h.content n head draft)

  Chain-is_digest :
      {es : List LedgerEntry} {head : Text} {n : ℕ}
      → ((t : Text) → is_digest (h.sha256 t) ≡ true)
      → Chain h es head n
      → is_digest head ≡ true
  unfolding is_digest
  Chain-is_digest hex empty = refl
  Chain-is_digest hex (extend {head = head} {n = n} {e = e} c k) =
      ap is_digest k.digest ∙ entry_digest-is_digest hex (suc n) head e.draft

  -- Where every digest is one of 64 lower-case hexadecimal digits, as SHA-256's are, appending to a file
  -- that reads back succeeds.
  pub append_total :
      (file : List LedgerEntry) (draft : LedgerDraft)
      → ((t : Text) → is_digest (h.sha256 t) ≡ true)
      → read_locked h file ≡ ok file
      → append h file draft ≡ ok (next_entry file draft, file ++ next_entry file draft ∷ [])
  unfolding append append_locked entry_post_init
  append_total file draft hex reads =
      let sealed = Chain-is_digest hex (read_locked-Chain h file file reads) in
      ground (
        arith,
        reads,
        sealed,
        entry_digest-is_digest hex (length file + 1) (head_digest file) draft,
      )
