-- ===== src/Binding/Obsolete.antt =====
-- What evidence of a bound Change Set is not obsolete.
use weft_mark.Prelude.{
  true, false, Option, none, some, List, [], ◌∷◌, map, select, mem_text, Text, text_eq_iff,
  text_eq_refl, Result-cases, ok, sort_texts, set_texts, any-sort_texts, any-set_texts, ◌≡◌, ◌⊎◌,
  ◌∙◌, ap, inl, inr, arith, In, Bool-cases, In-select,
}
use weft_mark.Evidence.{Evidence, change_set}
use weft_mark.Policy.{is_superseded}
use weft_mark.Binding.{
  GitLineageObservation, ChangeBinding, latest, is_obsolete, is_bound_elsewhere,
  obsolete_evidence_ids, post_init,
}

-- The latest observation of an accepted binding has the head of its Change Set.
latest-post_init :
    (resolve : Text → Text) (b : ChangeBinding)
    → post_init resolve b ≡ ok b
    → (o : GitLineageObservation) × (latest b ≡ ok o) × (o.head_sha ≡ b.change_set.head_sha)
unfolding post_init
latest-post_init resolve b e = elim (Result-cases (latest b)) [
  | inl (o, found) ↦ (o, found, ground (arith, found, text_eq_iff b.change_set.head_sha o.head_sha))
  | inr (x, raises) ↦ absurd (ground (arith, raises))
]

mem-ids :
    (e : Evidence) (es : List Evidence)
    → In e es
    → mem_text e.id (map (λ (x : Evidence). x.id) es) ≡ true
mem-ids e [] m = absurd m
mem-ids e (f ∷ es) (inl same) = rw same (ground (arith, text_eq_refl f.id))
mem-ids e (f ∷ es) (inr m) = ground (arith, mem-ids e es m)

bound_here :
    (head : Text) (bound : Option Text) → is_bound_elsewhere head bound ≡ false → bound ≡ some head
bound_here head none h = cc
bound_here head (some sha) h = ap some (ground (arith, text_eq_iff sha head))

not_obsolete-bound :
    (id head : Text) (e : Evidence)
    → e.subject.kind ≡ change_set
    → e.subject.id ≡ id
    → is_superseded e.state ≡ false
    → is_obsolete id head e ≡ false
    → is_bound_elsewhere head e.bound_commit_sha ≡ false
not_obsolete-bound id head e kind about standing h =
    ground (arith, kind, text_eq_iff e.subject.id id)

-- In a binding that its constructor accepts, the ids of obsolete evidence are computed, and evidence about
-- the Change Set that is not superseded has its id among them or is bound to the Change Set's head.
pub obsolete_or_bound :
    (resolve : Text → Text) (b : ChangeBinding) (e : Evidence) (evidence : List Evidence)
    → post_init resolve b ≡ ok b
    → In e evidence
    → e.subject.kind ≡ change_set
    → e.subject.id ≡ b.change_set.id
    → is_superseded e.state ≡ false
    → (ids : List Text) × (obsolete_evidence_ids b evidence ≡ ok ids)
      × ((mem_text e.id ids ≡ true) ⊎ (e.bound_commit_sha ≡ some b.change_set.head_sha))
unfolding obsolete_evidence_ids
obsolete_or_bound resolve b e evidence valid listed kind about standing =
    let (o, found, head) = latest-post_init resolve b valid in
    let test = is_obsolete b.change_set.id o.head_sha in
    let ids = map (λ (x : Evidence). x.id) (select test evidence) in
    (
      sort_texts (set_texts ids),
      ground (arith, found),
      elim (Bool-cases (test e)) [
        | inl obsolete ↦ inl (
            any-sort_texts _ _
            ∙ any-set_texts _ ids
            ∙ mem-ids e (select test evidence) (In-select test e evidence listed obsolete))
        | inr current ↦ inr (
            bound_here _ _ (not_obsolete-bound _ o.head_sha e kind about standing current)
            ∙ ap some head)
      ],
    )
