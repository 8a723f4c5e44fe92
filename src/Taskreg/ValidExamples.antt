-- ===== src/Taskreg/ValidExamples.antt =====
-- Two creations, of which the first has no title and is not handed on.
use poc_cometbft.Prelude.{◌≡◌, refl, List, [], ◌∷◌, Option, none, some, ok, arith}
use poc_cometbft.Bytes.{Bytes, bytes, bytes_eq}
use poc_cometbft.Taskreg.Types.{MsgCreateTask, validate_create}
use poc_cometbft.Taskreg.Empty.{no_tasks, no_tasks-IsRegistry, start, start-Abstracts}
use poc_cometbft.Taskreg.Memory.{store, store-laws, codec, codec-laws}
use poc_cometbft.Taskreg.Keeper
use poc_cometbft.Taskreg.MsgServer.{new_task}
use poc_cometbft.Taskreg.Registry
use poc_cometbft.Taskreg.History.{Msg, apply, apply_all, deliver_all, deliver_all-refines}
use poc_cometbft.Taskreg.Valid.{IsProper, validate, valid_ones, get_task-IsProper}

abbrev untitled : MsgCreateTask
untitled = record { creator = bytes "alice"; title = []; description = [] }

abbrev titled : MsgCreateTask
titled = record { creator = bytes "alice"; title = bytes "paint"; description = [] }

-- An address is any text but the empty one.
abbrev parse_address : Bytes → Option (Unit {0})
parse_address [] = some tt
parse_address (c ∷ text) = none

abbrev messages : List Msg
messages = Msg.create untitled ∷ Msg.create titled ∷ []

handed_on : valid_ones parse_address tt messages ≡ Msg.create titled ∷ []
unfolding valid_ones validate validate_create bytes_eq
handed_on = refl

stored :
    Keeper.get_task store codec
      (deliver_all store codec start (valid_ones parse_address tt messages)).store
      1
    ≡ ok (some (new_task 1 titled))
unfolding apply_all apply Registry.create
stored = rw handed_on (
    (deliver_all-refines store store-laws codec codec-laws (Msg.create titled ∷ []) start no_tasks
        start-Abstracts no_tasks-IsRegistry (omega arith, tt) (omega arith)).0.tasks_at
      1 (omega arith))

get_task-IsProper_example : IsProper parse_address tt (new_task 1 titled)
get_task-IsProper_example =
    get_task-IsProper parse_address tt store store-laws codec codec-laws messages start no_tasks 1
      (new_task 1 titled) start-Abstracts no_tasks-IsRegistry (λ id t e. cc)
      (omega arith, (omega arith, tt)) (omega arith) (omega arith) stored
