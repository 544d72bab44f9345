-- ===== src/Dependencies.antt =====
-- `_reaches` of src/weftmark/application/tasks.py, which keeps the dependencies of tasks free of cycles.
pub mod Reach
pub mod Acyclic
mod Tests
use weft_mark.Prelude.{
  ℕ, zero, suc, ◌+◌, Bool, true, false, if◌then◌else◌, not, List, [], ◌∷◌, ◌++◌, map, length, Text,
  text_eq, mem_text, Result, ok, err, raise_if, ◌>>◌, task_service_error,
}

-- The dependencies: a task, and one that it depends on.
abbrev pub Graph : Type 0
Graph = List (Text × Text)

-- `graph.get(current, ())`
unfoldable pub successors : Text → Graph → List Text
successors current [] = []
successors current ((a, b) ∷ graph) =
    let rest = successors current graph in if text_eq a current then b ∷ rest else rest

-- The loop. The last element of `pending` is the head here; a set is iterated in no particular order.
unfoldable pub search : (graph : Graph) (target : Text) (fuel : ℕ) (pending seen : List Text) → Bool
search graph target zero pending seen = false
search graph target (suc fuel) [] seen = false
search graph target (suc fuel) (current ∷ pending) seen =
    let passed = search graph target fuel pending seen in
    let expanded =
      search graph target fuel (successors current graph ++ pending) (current ∷ seen) in
    if text_eq current target then true else if mem_text current seen then passed else expanded

-- `_reaches`. Each round takes one element off `pending`, and each edge puts one on it at most once.
unfoldable pub reaches : Graph → (start target : Text) → Bool
reaches graph start target = search graph target (length graph + 1) (start ∷ []) []

-- The guard of `add_dependency`: the graph with the new dependency, in which the search is made.
unfoldable pub add_edge : Graph → (task_id depends_on_task_id : Text) → Result Graph
add_edge graph task_id depends_on_task_id =
    let wider = (task_id, depends_on_task_id) ∷ graph in
    do raise_if (reaches wider depends_on_task_id task_id) task_service_error; ok wider
