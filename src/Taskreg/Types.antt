-- ===== src/Taskreg/Types.antt =====
-- mychain/x/taskreg/types: tasks, messages, errors, events and store keys.
use poc_cometbft.Prelude.{
  ℕ, ◌^◌, ◌<◌, List, [], ◌++◌, Option, Outcome, ok, err, ◌>>=◌, length, if◌then◌else◌,
}
use poc_cometbft.Bytes.{Bytes, bytes, bytes_eq}
use poc_cometbft.Bytes.BigEndian.{IsU64, put_uint64}

-- An int32 of types.pb.go, held as its 32-bit pattern.
abbrev pub TaskStatus : Type 0
TaskStatus = ℕ

abbrev pub unspecified : TaskStatus
unspecified = 0

abbrev pub opened : TaskStatus
opened = 1

abbrev pub assigned : TaskStatus
assigned = 2

abbrev pub completed : TaskStatus
completed = 3

pub record Task : Type 0 where
  pub id : ℕ
  pub title : Bytes
  pub description : Bytes
  pub creator : Bytes
  pub assignee : Bytes
  pub status : TaskStatus

pub record GenesisState : Type 0 where
  pub tasks : List Task
  pub next_task_id : ℕ

pub record MsgCreateTask : Type 0 where
  pub creator : Bytes
  pub title : Bytes
  pub description : Bytes

pub record MsgAssignTask : Type 0 where
  pub creator : Bytes
  pub task_id : ℕ
  pub assignee : Bytes

pub record MsgCompleteTask : Type 0 where
  pub assignee : Bytes
  pub task_id : ℕ

-- A Go string has an `int` for a length.
abbrev pub IsText : Bytes → Type 0
IsText s = length s < 2 ^ 63

-- The ranges of the fields' Go types.
pub record IsTask (t : Task) : Type 0 where
  pub id_range : IsU64 t.id
  pub title_range : IsText t.title
  pub description_range : IsText t.description
  pub creator_range : IsText t.creator
  pub assignee_range : IsText t.assignee
  pub status_range : t.status < 2 ^ 32

-- errors.go, and the gRPC status of an empty request.
pub data Kind : Type 0 where
  task_not_found unauthorized invalid_status invalid_argument : Kind

-- An error that wraps one of these, with its text.
pub record Error : Type 0 where
  pub kind : Kind
  pub message : Bytes

-- What `errors.Register` gives the module's errors; the status is `codes.InvalidArgument`.
unfoldable pub code : Kind → ℕ
code task_not_found = 2
code unauthorized = 3
code invalid_status = 4
code invalid_argument = 3

pub record Event : Type 0 where
  pub type : Bytes
  pub attributes : List (Bytes × Bytes)

abbrev pub module_name : Bytes
module_name = bytes "taskreg"

abbrev pub task_key_prefix : Bytes
task_key_prefix = bytes "Task/value/"

abbrev pub task_count_key : Bytes
task_count_key = bytes "Task/count"

unfoldable pub key_task : ℕ → Bytes
key_task id = task_key_prefix ++ put_uint64 id

-- msgs.go. `parse_address` is what `sdk.AccAddressFromBech32` returns for an error, or none.
module _ {E : Type 0} (parse_address : Bytes → Option E) (title_error : E) where
  abbrev pub check : Option E → Outcome E (Unit {0})
  check Option.none = ok tt
  check (Option.some e) = err e

  unfoldable pub validate_create : MsgCreateTask → Outcome E (Unit {0})
  validate_create msg = do
    _ ← check (parse_address msg.creator)
    if bytes_eq msg.title [] then err title_error else ok tt

  unfoldable pub validate_assign : MsgAssignTask → Outcome E (Unit {0})
  validate_assign msg = do _ ← check (parse_address msg.creator); check (parse_address msg.assignee)

  unfoldable pub validate_complete : MsgCompleteTask → Outcome E (Unit {0})
  validate_complete msg = check (parse_address msg.assignee)
