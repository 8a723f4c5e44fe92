-- ===== src/Taskreg/ServedExamples.antt =====
-- Two requests to the service Msg, of which the second brings no message.
use poc_cometbft.Prelude.{◌≡◌, refl, [], ◌∷◌, none, some, err, arith}
use poc_cometbft.Bytes.{bytes, bytes_eq}
use poc_cometbft.Taskreg.Types.{MsgCreateTask}
use poc_cometbft.Taskreg.Empty.{no_tasks, no_tasks-IsRegistry, start, start-Abstracts}
use poc_cometbft.Taskreg.Memory.{store, store-laws, codec, codec-laws, wire, wire-ranges}
use poc_cometbft.Taskreg.Registry.{IsRegistry}
use poc_cometbft.Taskreg.Refines.{Abstracts}
use poc_cometbft.Taskreg.History.{Msg}
use poc_cometbft.Taskreg.Wire.{unmarshal, slice_from, string_field}
use poc_cometbft.Taskreg.Wire.Messages.{unmarshal_create, create_field}
use poc_cometbft.Taskreg.Served.{Request, message_of, apply_requests, serve_all, serve_all-refines}

abbrev creating : MsgCreateTask
creating = record { creator = bytes "alice"; title = bytes "paint"; description = [] }

abbrev create_request : Request
create_request = (
  bytes "/mychain.taskreg.v1.Msg/CreateTask",
  10 ∷ 5 ∷ 97 ∷ 108 ∷ 105 ∷ 99 ∷ 101 ∷ 18 ∷ 5 ∷ 112 ∷ 97 ∷ 105 ∷ 110 ∷ 116 ∷ [],
)

abbrev junk : Request
junk = (bytes "/mychain.taskreg.v1.Msg/AssignTask", 10 ∷ 200 ∷ [])

create_request_read : message_of wire create_request ≡ some (Msg.create creating)
unfolding message_of bytes_eq unmarshal_create unmarshal slice_from create_field string_field
create_request_read = refl

serve_all-refines_example :
    Abstracts store codec
      (serve_all store codec wire (λ bz req. err []) none start (create_request ∷ junk ∷ [])).store
      (apply_requests wire no_tasks (create_request ∷ junk ∷ []))
    × IsRegistry (apply_requests wire no_tasks (create_request ∷ junk ∷ []))
serve_all-refines_example =
    serve_all-refines store store-laws codec codec-laws wire wire-ranges (λ bz req. err []) none tt
      (create_request ∷ junk ∷ []) start no_tasks start-Abstracts no_tasks-IsRegistry
      (omega arith, (omega arith, tt)) (omega arith)
