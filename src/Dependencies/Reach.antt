-- ===== src/Dependencies/Reach.antt =====
-- What the search finds are the paths of the graph.
use mathlib.Core.Path.{subst}
use weft_mark.Prelude.{
  ℕ, zero, suc, ◌+◌, ◌≤◌, true, false, Bool-cases, if◌then◌else◌, List, [], ◌∷◌, ◌++◌, length, Text,
  text_eq, text_eq_iff, text_eq_refl, mem_text, In, ◌≡◌, ◌↔◌, ◌⊎◌, sym, ap, refl, inl, inr, arith,
}
use weft_mark.Dependencies.{Graph, successors, search, reaches}

-- A task depends on another, directly, over others, or as itself.
pub data Leads (graph : Graph) (target : Text) : Text → Type 0 where
  arrived : Leads graph target target
  over : {a b : Text} → In (a, b) graph → Leads graph target b → Leads graph target a

-- A path that passes no task of a list.
data Free (graph : Graph) (target : Text) (seen : List Text) : Text → Type 0 where
  at_end : mem_text target seen ≡ false → Free graph target seen target
  onward :
      {a b : Text}
      → mem_text a seen ≡ false
      → In (a, b) graph
      → Free graph target seen b
      → Free graph target seen a

Free-start :
    {graph : Graph} {target : Text} {seen : List Text} {a : Text}
    → Free graph target seen a
    → mem_text a seen ≡ false
Free-start (at_end e) = e
Free-start (onward e i f) = e

Leads-Free : {graph : Graph} {target a : Text} → Leads graph target a → Free graph target [] a
Leads-Free arrived = at_end refl
Leads-Free (over i l) = onward refl i (Leads-Free l)

In-successors : (graph : Graph) (a b : Text) → In (a, b) graph → In b (successors a graph)
unfolding successors
In-successors ((c, d) ∷ graph) a b (inl e) =
    rw (ap (λ (p : Text × Text). p.0) (sym e))
      (rw (ap (λ (p : Text × Text). p.1) (sym e)) (ground (arith, text_eq_refl a)))
In-successors ((c, d) ∷ graph) a b (inr m) = elim (Bool-cases (text_eq c a)) [
  | inl same ↦ ground (arith, same, In-successors graph a b m)
  | inr other ↦ ground (arith, other, In-successors graph a b m)
]
In-successors [] a b m = absurd m

In-of-successors : (graph : Graph) (a b : Text) → In b (successors a graph) → In (a, b) graph
unfolding successors
In-of-successors [] a b m = absurd m
In-of-successors ((c, d) ∷ graph) a b m = elim (Bool-cases (text_eq c a)) [
  | inl same ↦
      elim (subst (In b) (ap (λ t. if t then d ∷ successors a graph else successors a graph) same)
        m) [
          | inl e ↦ inl (λ i. ((sym ((text_eq_iff c a).0 same)) i, e i))
          | inr later ↦ inr (In-of-successors graph a b later)
        ]
  | inr other ↦ inr (
      In-of-successors graph a b
        (subst (In b) (ap (λ t. if t then d ∷ successors a graph else successors a graph) other) m))
]

In-left : (x : Text) (xs ys : List Text) → In x xs → In x (xs ++ ys)
In-left x [] ys m = absurd m
In-left x (y ∷ xs) ys (inl e) = inl e
In-left x (y ∷ xs) ys (inr m) = inr (In-left x xs ys m)

In-right : (x : Text) (xs ys : List Text) → In x ys → In x (xs ++ ys)
In-right x [] ys m = m
In-right x (y ∷ xs) ys m = inr (In-right x xs ys m)

-- A free path is free of a further task as well, or goes on from it without it.
Free-split :
    (graph : Graph) (target c : Text) (seen : List Text) (a : Text)
    → text_eq c target ≡ false
    → Free graph target seen a
    → Free graph target (c ∷ seen) a
      ⊎ ((b : Text) × In (c, b) graph × Free graph target (c ∷ seen) b)
Free-split graph target c seen a other (at_end e) =
    inl (at_end (ground (arith, e, other, text_eq_iff target c, text_eq_iff c target)))
Free-split graph target c seen a other (onward {b = b} e i f) =
    elim (Free-split graph target c seen b other f) [
      | inr later ↦ inr later
      | inl free ↦ elim (Bool-cases (text_eq a c)) [
        | inl same ↦ inr (b, subst (λ x. In (x, b) graph) ((text_eq_iff a c).0 same) i, free)
        | inr differs ↦ inl (onward (ground (arith, e, differs)) i free)
      ]
    ]

-- The edges whose source was not expanded yet.
unfoldable unseen : List Text → Graph → ℕ
unseen seen [] = zero
unseen seen ((a, b) ∷ graph) =
    let rest = unseen seen graph in if mem_text a seen then rest else suc rest

unseen-expanded :
    (c : Text) (seen : List Text) (graph : Graph)
    → mem_text c seen ≡ false
    → unseen (c ∷ seen) graph + length (successors c graph) ≡ unseen seen graph
unfolding unseen successors
unseen-expanded c seen [] e = refl
unseen-expanded c seen ((a, b) ∷ graph) e = elim (Bool-cases (text_eq a c)) [
  | inl same ↦ ground (
    arith,
    same,
    e,
    (text_eq_iff a c).0 same,
    ap (λ x. mem_text x seen) ((text_eq_iff a c).0 same),
    unseen-expanded c seen graph e,
  )
  | inr other ↦ elim (Bool-cases (mem_text a seen)) [
    | inl passed ↦ ground (arith, other, passed, unseen-expanded c seen graph e)
    | inr new ↦ ground (arith, other, new, unseen-expanded c seen graph e)
  ]
]

length-append : (xs ys : List Text) → length (xs ++ ys) ≡ length xs + length ys
length-append [] ys = omega arith
length-append (x ∷ xs) ys = ground (arith, length-append xs ys)

search-finds :
    (graph : Graph) (target : Text) (fuel : ℕ) (pending seen : List Text) (a : Text)
    → length pending + unseen seen graph ≤ fuel
    → In a pending
    → Free graph target seen a
    → search graph target fuel pending seen ≡ true
unfolding search
search-finds graph target fuel [] seen a enough m f = absurd m
search-finds graph target zero (c ∷ pending) seen a enough m f = absurd (omega (arith, enough))
search-finds graph target (suc fuel) (c ∷ pending) seen a enough m f =
    elim (Bool-cases (text_eq c target)) [
      | inl done ↦ ground (arith, done)
      | inr other ↦ elim (Bool-cases (mem_text c seen)) [
        | inl passed ↦ elim m [
          | inl e ↦ absurd (ground (arith, passed, Free-start f, ap (λ x. mem_text x seen) e))
          | inr later ↦ ground (
            arith,
            other,
            passed,
            search-finds graph target fuel pending seen a (omega (arith, enough)) later f,
          )
        ]
        | inr new ↦
            let next : length (successors c graph ++ pending) + unseen (c ∷ seen) graph ≤ fuel =
              omega (
                arith,
                enough,
                length-append (successors c graph) pending,
                unseen-expanded c seen graph new,
              ) in
            elim (Free-split graph target c seen a other f) [
              | inl free ↦ elim m [
                | inl e ↦ absurd (ground (arith, Free-start free, (text_eq_iff a c).1 e))
                | inr later ↦ ground (
                  arith,
                  other,
                  new,
                  search-finds graph target fuel (successors c graph ++ pending) (c ∷ seen) a next
                      (In-right a (successors c graph) pending later) free,
                )
              ]
              | inr (b, i, free) ↦ ground (
                arith,
                other,
                new,
                search-finds graph target fuel (successors c graph ++ pending) (c ∷ seen) b next
                    (In-left b (successors c graph) pending (In-successors graph c b i)) free,
              )
            ]
      ]
    ]

In-append-cases : (x : Text) (xs ys : List Text) → In x (xs ++ ys) → In x xs ⊎ In x ys
In-append-cases x [] ys m = inr m
In-append-cases x (y ∷ xs) ys (inl e) = inl (inl e)
In-append-cases x (y ∷ xs) ys (inr m) = elim (In-append-cases x xs ys m) [
  | inl k ↦ inl (inr k)
  | inr k ↦ inr k
]

search-Leads :
    (graph : Graph) (target : Text) (fuel : ℕ) (pending seen : List Text)
    → search graph target fuel pending seen ≡ true
    → (a : Text) × In a pending × Leads graph target a
unfolding search
search-Leads graph target zero pending seen e = cc
search-Leads graph target (suc fuel) [] seen e = cc
search-Leads graph target (suc fuel) (c ∷ pending) seen e = elim (Bool-cases (text_eq c target)) [
  | inl done ↦
      (c, inl refl, subst (Leads graph target) (sym ((text_eq_iff c target).0 done)) arrived)
  | inr other ↦ elim (Bool-cases (mem_text c seen)) [
    | inl passed ↦
        let (a, m, l) =
          search-Leads graph target fuel pending seen (ground (arith, e, other, passed)) in
        (a, inr m, l)
    | inr new ↦
        let (a, m, l) =
          search-Leads graph target fuel (successors c graph ++ pending) (c ∷ seen)
            (ground (arith, e, other, new)) in
        elim (In-append-cases a (successors c graph) pending m) [
          | inl i ↦ (c, inl refl, over (In-of-successors graph c a i) l)
          | inr i ↦ (a, inr i, l)
        ]
  ]
]

unseen-nil : (graph : Graph) → unseen [] graph ≡ length graph
unfolding unseen
unseen-nil [] = refl
unseen-nil ((a, b) ∷ graph) = ground (arith, unseen-nil graph)

-- The search ends with true exactly if the target is the start or the start depends on it, directly or over
-- other tasks; its rounds, as many as there are edges and one more, are enough.
pub reaches_iff :
    (graph : Graph) (start target : Text)
    → (reaches graph start target ≡ true) ↔ Leads graph target start
unfolding reaches
reaches_iff graph start target = (
  λ e.
      let (a, m, l) = search-Leads graph target (length graph + 1) (start ∷ []) [] e in
      elim m [ inl same ↦ subst (Leads graph target) same l | inr none ↦ absurd none ],
  λ l.
      search-finds graph target (length graph + 1) (start ∷ []) [] start
        (omega (arith, unseen-nil graph)) (inl refl) (Leads-Free l),
)
