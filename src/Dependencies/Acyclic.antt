-- ===== src/Dependencies/Acyclic.antt =====
-- The guard of `add_dependency` keeps the graph of the dependencies free of cycles.
use mathlib.Core.Path.{subst}
use weft_mark.Prelude.{
  ◌∷◌, Text, In, ok, err, raise_if, raise_if-passed, uncheck, ok-injective, task_service_error, ◌≡◌,
  ◌⊎◌, ◌↔◌, sym, ap, inl, inr, arith,
}
use weft_mark.Dependencies.{Graph, reaches, add_edge}
use weft_mark.Dependencies.Reach.{Leads, arrived, over, reaches_iff}

-- No task depends on itself, directly or over others.
abbrev pub IsAcyclic : Graph → Type 0
IsAcyclic graph = (a b : Text) → In (a, b) graph → ¬ Leads graph a b

Leads-trans : {graph : Graph} {b c a : Text} → Leads graph b a → Leads graph c b → Leads graph c a
Leads-trans arrived m = m
Leads-trans (over i l) m = over i (Leads-trans l m)

-- A path of the wider graph avoids the new edge, or leads to it and on from it.
Leads-split :
    (graph : Graph) (task depends target a : Text)
    → Leads ((task, depends) ∷ graph) target a
    → Leads graph target a
      ⊎ (Leads ((task, depends) ∷ graph) task a × Leads ((task, depends) ∷ graph) target depends)
Leads-split graph task depends target _ arrived = inl arrived
Leads-split graph task depends target a (over {b = b} (inl e) l) = inr (
  subst (λ x. Leads ((task, depends) ∷ graph) task x) (ap (λ (p : Text × Text). p.0) (sym e))
      arrived,
  subst (λ x. Leads ((task, depends) ∷ graph) target x) (ap (λ (p : Text × Text). p.1) e) l,
)
Leads-split graph task depends target a (over {b = b} (inr i) l) =
    elim (Leads-split graph task depends target b l) [
      | inl direct ↦ inl (over i direct)
      | inr (before, after) ↦ inr (over (inr i) before, after)
    ]

-- A dependency that is added to a graph without cycles leaves it without cycles. It is refused exactly if
-- the task that is depended on is the task itself or depends on it, directly or over others, where the
-- new dependency counts.
pub add_edge-IsAcyclic :
    (graph : Graph) (task_id depends_on_task_id : Text)
    → IsAcyclic graph
    → ((wider : Graph) → add_edge graph task_id depends_on_task_id ≡ ok wider → IsAcyclic wider)
      × ((add_edge graph task_id depends_on_task_id ≡ err task_service_error)
          ↔ Leads ((task_id, depends_on_task_id) ∷ graph) task_id depends_on_task_id)
unfolding add_edge
add_edge-IsAcyclic graph t d acyclic = (
  λ wider e.
      let (passed, made) =
        uncheck {first = raise_if (reaches ((t, d) ∷ graph) d t) task_service_error} e in
      let never : ¬ Leads ((t, d) ∷ graph) t d =
        λ l. ground (arith, raise_if-passed _ _ passed, (reaches_iff ((t, d) ∷ graph) d t).1 l) in
      subst IsAcyclic (ok-injective ((t, d) ∷ graph) wider made) (kept never),
  (
    λ e. (reaches_iff ((t, d) ∷ graph) d t).0 (ground (arith, e)),
    λ l. ground (arith, (reaches_iff ((t, d) ∷ graph) d t).1 l),
  ),
)
  where
    kept : ¬ Leads ((t, d) ∷ graph) t d → IsAcyclic ((t, d) ∷ graph)
    kept never a b (inl e) l = never (
        subst (λ x. Leads ((t, d) ∷ graph) t x) (ap (λ (p : Text × Text). p.1) e)
          (subst (λ x. Leads ((t, d) ∷ graph) x b) (ap (λ (p : Text × Text). p.0) e) l))
    kept never a b (inr i) l = elim (Leads-split graph t d a b l) [
      | inl direct ↦ acyclic a b i direct
      | inr (before, after) ↦ never (Leads-trans after (over (inr i) before))
    ]
