-- ===== src/Task/Relations.antt =====
-- Conflicts are symmetric.
use weft_mark.Prelude.{
  true, false, Text, text_eq, text_eq_iff, text_eq_refl, text_eq_comm, text_lt_asymm, text_lt_total,
  text_lt_irrefl, DateTime, ok, ◌≡◌, arith,
}
use weft_mark.Task.{TaskConflict, conflict_post_init, between, includes, other}

-- A conflict between two tasks is the same record whichever is named first.
pub between_comm :
    (left right reason : Text) (created_at : DateTime)
    → between left right reason created_at ≡ between right left reason created_at
unfolding between
between_comm left right reason created_at =
    ground (arith, text_lt_asymm left right, text_lt_asymm right left, text_lt_total left right)

-- The two tasks of an accepted conflict are different.
distinct :
    (c : TaskConflict)
    → conflict_post_init c ≡ ok c
    → text_eq c.first_task_id c.second_task_id ≡ false
unfolding conflict_post_init
distinct c h =
    ground (arith, text_eq_iff c.first_task_id c.second_task_id, text_lt_irrefl c.first_task_id)

-- In an accepted conflict, the other task of a task that it includes is included, is another one, and its
-- other task is the first again.
pub other_involutive :
    (c : TaskConflict) (id peer : Text)
    → conflict_post_init c ≡ ok c
    → other c id ≡ ok peer
    → (includes c peer ≡ true) × (text_eq peer id ≡ false) × (other c peer ≡ ok id)
unfolding other includes
other_involutive c id peer accepted e =
    let apart = distinct c accepted in
    let first = c.first_task_id in
    let second = c.second_task_id in
    ground (
      arith,
      text_eq_iff id first,
      text_eq_iff id second,
      text_eq_refl first,
      text_eq_refl second,
      text_eq_comm first second,
    )
