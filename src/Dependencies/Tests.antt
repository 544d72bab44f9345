-- ===== src/Dependencies/Tests.antt =====
-- Runs of the search for cycles, and its theorems at them.
use weft_mark.Prelude.{true, [], ◌∷◌, codes, text_eq, ok, err, task_service_error, ◌≡◌, ◌↔◌, refl}
use weft_mark.Dependencies.{Graph, successors, search, reaches, add_edge}
use weft_mark.Dependencies.Reach.{Leads, reaches_iff}
use weft_mark.Dependencies.Acyclic.{IsAcyclic, add_edge-IsAcyclic}

program : Unit {0}
unfolding successors search reaches add_edge text_eq
program = tt

-- `a` depends on `b`, and `b` on `c`.
abbrev chain : Graph
chain = (codes "a", codes "b") ∷ (codes "b", codes "c") ∷ []

a_reaches_c : reaches chain (codes "a") (codes "c") ≡ true
unfolding program
a_reaches_c = refl

closed : add_edge chain (codes "c") (codes "a") ≡ err task_service_error
unfolding program
closed = refl

reaches_iff_example :
    (reaches chain (codes "a") (codes "c") ≡ true) ↔ Leads chain (codes "c") (codes "a")
reaches_iff_example = reaches_iff chain (codes "a") (codes "c")

no_edges-IsAcyclic : IsAcyclic []
no_edges-IsAcyclic a b m l = m

add_edge-IsAcyclic_example :
    ((wider : Graph) → add_edge [] (codes "a") (codes "b") ≡ ok wider → IsAcyclic wider)
    × ((add_edge [] (codes "a") (codes "b") ≡ err task_service_error)
        ↔ Leads ((codes "a", codes "b") ∷ []) (codes "a") (codes "b"))
add_edge-IsAcyclic_example = add_edge-IsAcyclic [] (codes "a") (codes "b") no_edges-IsAcyclic
