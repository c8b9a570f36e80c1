-- ===== src/Types.antt =====
-- The constants of std/llfree_types.h, and the ids, errors and results of include/llfree.h.
-- An id struct with the one field `value` is that number.
use llfree_c.Base.{ℕ, ◌-◌, ◌^◌, Bool, true, false, Option, List}

abbrev pub child_order : ℕ
child_order = 9

abbrev pub child_size : ℕ
child_size = 512

abbrev pub atomic_order : ℕ
atomic_order = 6

abbrev pub atomic_size : ℕ
atomic_size = 64

abbrev pub tree_children : ℕ
tree_children = 8

abbrev pub tree_order : ℕ
tree_order = 12

abbrev pub tree_size : ℕ
tree_size = 4096

abbrev pub max_classes : ℕ
max_classes = 8

abbrev pub class_none : ℕ
class_none = 255

abbrev pub uint8_max : ℕ
uint8_max = 255

abbrev pub uint64_max : ℕ
uint64_max = 2 ^ 64 - 1

-- `RETRIES` of src/utils.h.
abbrev pub retries : ℕ
retries = 4

-- The error codes of a result.
pub data Error : Type 0 where
  ok memory argument init : Error

-- `llfree_result_t`.
pub record Outcome : Type 0 where
  pub frame : ℕ
  pub class : ℕ
  pub error : Error

abbrev pub llfree_ok : ℕ → ℕ → Outcome
llfree_ok frame class = record { frame = frame; class = class; error = ok }

abbrev pub llfree_err : Error → Outcome
llfree_err e = record { frame = 0; class = 0; error = e }

abbrev pub is_ok : Error → Bool
is_ok ok = true
is_ok _ = false

abbrev pub llfree_is_ok : Outcome → Bool
llfree_is_ok r = is_ok r.error

abbrev pub is_memory : Error → Bool
is_memory memory = true
is_memory _ = false

-- `llfree_request_t`.
pub record Request : Type 0 where
  pub order : ℕ
  pub class : ℕ
  pub local : Option ℕ

-- `llfree_policy_type_t`, with the constructor `match` of the source spelled `matched`.
pub data PolicyType : Type 0 where
  matched steal demote invalid : PolicyType

-- `llfree_policy_t`.
pub record Policy : Type 0 where
  pub type : PolicyType
  pub priority : ℕ

-- `llfree_policy_fn`: requested class, target class, free frames.
abbrev pub PolicyFn : Type 0
PolicyFn = ℕ → ℕ → ℕ → Policy

-- `llfree_class_conf_t`.
pub record ClassConf : Type 0 where
  pub class : ℕ
  pub count : ℕ

-- `llfree_tree_operation_t`.
pub data TreeOperation : Type 0 where
  keep online offline : TreeOperation

-- `llfree_classing_t`; `classes` holds the valid entries alone, so its length is `num_classes`.
pub record Classing : Type 0 where
  pub classes : List ClassConf
  pub default_class : ℕ
  pub policy : PolicyFn
