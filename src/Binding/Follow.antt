-- ===== src/Binding/Follow.antt =====
-- What `create` and `refresh` of src/weftmark/application/change_binding.py make of a Change Set.
use weft_mark.ChangeSet.{ChangeSet}
