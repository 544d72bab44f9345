-- ===== src/Ledger/Tests.antt =====
-- Runs of the ledger on small inputs, and its theorems at them.
use weft_mark.Prelude.{
  Bool, true, false, List, [], ◌∷◌, ◌++◌, some, Text, codes, text_eq, text_lt, is_space, lstrip,
  strip, is_blank, utc, ok, err, ◌≡◌, ◌≢◌, refl, sym, ◌∙◌, ap, arith, inl, inr, ledger_head_changed,
  ledger_corruption, if◌then◌else◌, In,
}
use weft_mark.Ledger.{
  LedgerDraft, LedgerEntry, Hashing, genesis_digest, head_digest, is_digest, entry_post_init,
  history, latest, draft_post_init, entry_digest, check_entry, read_from, read_locked,
  append_locked, append, append_if_head,
}
use weft_mark.Ledger.Chain.{IsCollisionFree, head_determines_file}
use weft_mark.Ledger.Append.{
  next_entry, append_reads_back, append_if_head_outcome, second_writer_fails, append_total,
}

-- What a run has to see through.
program : Unit {0}
unfolding is_digest entry_post_init history latest draft_post_init entry_digest check_entry
    read_from read_locked append_locked append append_if_head is_blank strip lstrip is_space text_eq
    text_lt
program = tt

-- The content of an entry of these runs is its number, and its digest is 64 times a digit, which are a
-- stand-in for SHA-256 on the first entries of a ledger.
abbrev digest_of_one : Text
digest_of_one = codes "1111111111111111111111111111111111111111111111111111111111111111"

abbrev digest_of_others : Text
digest_of_others = codes "2222222222222222222222222222222222222222222222222222222222222222"

abbrev sample : Hashing
sample = record {
  canonical_object = λ s. some s;
  content = λ n previous draft. n ∷ [];
  sha256 = λ s. if text_eq s (1 ∷ []) then digest_of_one else digest_of_others;
}

abbrev draft : LedgerDraft
draft = record {
  kind = codes "claim";
  entity_id = codes "c1";
  payload_json = codes "{}";
  recorded_at = utc 1;
}

abbrev first_entry : LedgerEntry
first_entry = next_entry sample [] draft

abbrev one : List LedgerEntry
one = first_entry ∷ []

append-nil : append sample [] draft ≡ ok (first_entry, one)
unfolding program
append-nil = refl

append_if_head-nil : append_if_head sample [] draft genesis_digest ≡ ok (first_entry, one)
unfolding program
append_if_head-nil = refl

one_reads : read_locked sample one ≡ ok one
unfolding program
one_reads = refl

-- A changed number is noticed.
tampered : read_locked sample (record first_entry { sequence = 2 } ∷ []) ≡ err ledger_corruption
unfolding program
tampered = refl

latest-one : latest (codes "claim") (codes "c1") one ≡ some first_entry
unfolding program
latest-one = refl

append_reads_back_example :
    (read_locked sample [] ≡ ok [])
    × (first_entry ≡ next_entry sample [] draft)
    × (one ≡ [] ++ first_entry ∷ [])
    × (read_locked sample one ≡ ok one)
append_reads_back_example = append_reads_back sample [] one draft first_entry append-nil

append_if_head_outcome_example : append_if_head sample one draft genesis_digest ≡ (
    if text_eq (head_digest one) genesis_digest
    then append sample one draft
    else err ledger_head_changed)
append_if_head_outcome_example = append_if_head_outcome sample one draft genesis_digest one_reads

first_moves : text_eq first_entry.digest genesis_digest ≡ false
unfolding program
first_moves = refl

second_writer_fails_example :
    append_if_head sample one draft genesis_digest ≡ err ledger_head_changed
second_writer_fails_example =
    second_writer_fails sample [] one draft draft genesis_digest first_entry append_if_head-nil
      first_moves

digests_are_hex : (t : Text) → is_digest (sample.sha256 t) ≡ true
unfolding is_digest
digests_are_hex t = either (text_eq t (1 ∷ []))
  where
    either : (b : Bool) → is_digest (if b then digest_of_one else digest_of_others) ≡ true
    either true = refl
    either false = refl

append_total_example :
    append sample one draft
    ≡ ok (next_entry sample one draft, one ++ next_entry sample one draft ∷ [])
append_total_example = append_total sample one draft digests_are_hex one_reads

one_digest : entry_digest sample 1 genesis_digest draft ≡ digest_of_one
unfolding program
one_digest = refl

one_is_fresh : digest_of_one ≢ genesis_digest
one_is_fresh e = ground (arith, e)

one_free : IsCollisionFree sample one one
one_free = record { injective = same; left_fresh = fresh; right_fresh = fresh }
  where
    same :
        (e f : LedgerEntry)
        → In e one
        → In f one
        → entry_digest sample e.sequence e.previous_digest e.draft
          ≡ entry_digest sample f.sequence f.previous_digest f.draft
        → (e.sequence ≡ f.sequence) × (e.previous_digest ≡ f.previous_digest) × (e.draft ≡ f.draft)
    same e f (inl p) (inl q) d = rw p (rw q (refl, refl, refl))
    same e f (inl p) (inr m) d = absurd m
    same e f (inr m) k d = absurd m

    fresh :
        (e : LedgerEntry)
        → In e one
        → entry_digest sample e.sequence e.previous_digest e.draft ≢ genesis_digest
    fresh e (inl p) d = one_is_fresh (
        sym one_digest
        ∙ ap (λ (x : LedgerEntry). entry_digest sample x.sequence x.previous_digest x.draft) (sym p)
        ∙ d)
    fresh e (inr m) d = absurd m

head_determines_file_example : one ≡ one
head_determines_file_example =
    head_determines_file sample one one one one one_reads one_reads refl one_free
