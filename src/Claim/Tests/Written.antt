-- ===== src/Claim/Tests/Written.antt =====
-- A claim that is written and read back.
use mathlib.Core.Path.{subst}
use weft_mark.Prelude.{none, codes, ok, In, inl, inr, ◌≡◌, refl, sym}
use weft_mark.Scope.Record.{IsStable}
use weft_mark.Lock.{SemanticLock}
use weft_mark.Lock
use weft_mark.Json.{null, Python, IsoReads}
use weft_mark.Samples.{plain, python_of, read_time-write_time, lease}
use weft_mark.Claim.Payload.{written, claim_to_payload, claim_from_payload}
use weft_mark.Claim.Payload.Back.{IsWritable, claim_from_payload-claim_to_payload}
use weft_mark.Claim
use weft_mark.Claim.Tests.{first_claim, program}

abbrev python : Python
python = python_of null

iso : IsoReads python
iso = read_time-write_time

lease_valid :
    Lock.post_init (lease (codes "c1:1") (codes "a") 1) ≡ ok (lease (codes "c1:1") (codes "a") 1)
unfolding program
lease_valid = refl

lease-IsStable : IsStable plain (lease (codes "c1:1") (codes "a") 1).scope
unfolding program
lease-IsStable = refl

claim_valid : Claim.post_init first_claim ≡ ok first_claim
unfolding program
claim_valid = refl

first-IsWritable : IsWritable plain python iso first_claim
first-IsWritable = record { valid = claim_valid; locks = valid; scopes = stable }
  where
    valid : (l : SemanticLock) → In l first_claim.locks → Lock.post_init l ≡ ok l
    valid l (inl is) = subst (λ x. Lock.post_init x ≡ ok x) (sym is) lease_valid
    valid l (inr m) = absurd m

    stable : (l : SemanticLock) → In l first_claim.locks → IsStable plain l.scope
    stable l (inl is) = subst (λ (x : SemanticLock). IsStable plain x.scope) (sym is) lease-IsStable
    stable l (inr m) = absurd m

to_payload :
    claim_to_payload plain python first_claim none ≡ ok (written plain python first_claim none)
unfolding claim_to_payload
to_payload = refl

claim_from_payload-claim_to_payload_example :
    claim_from_payload plain python (written plain python first_claim none) ≡ ok first_claim
claim_from_payload-claim_to_payload_example =
    claim_from_payload-claim_to_payload plain python iso first_claim none
      (written plain python first_claim none) first-IsWritable to_payload
