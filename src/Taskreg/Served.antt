-- ===== src/Taskreg/Served.antt =====
-- Requests of any bytes to the service Msg, as the SDK's message router hands them to its methods.
use poc_cometbft.Prelude.{
  ◌+◌, ◌≤◌, ◌<◌, ◌^◌, ◌≡◌, refl, List, [], ◌∷◌, ◌++◌, Option, none, some, Outcome, ok, err, panic,
  if◌then◌else◌, length, All, arith, inl, inr, Bool-cases,
}
use poc_cometbft.Bytes.{Bytes, bytes, bytes_eq}
use poc_cometbft.Taskreg.Types
use poc_cometbft.Taskreg.Types.{IsText}
use poc_cometbft.Taskreg.Store.{KvStoreService, StoreLaws, Codec, CodecLaws}
use poc_cometbft.Taskreg.MsgServer.{Context}
use poc_cometbft.Taskreg.Query.{QueryListTasksRequest}
use poc_cometbft.Taskreg.Registry.{Registry, IsRegistry}
use poc_cometbft.Taskreg.Refines.{Abstracts}
use poc_cometbft.Taskreg.History.{
  Msg, IsMsg, apply, deliver, deliver-refines, apply-IsRegistry, next-apply,
}
use poc_cometbft.Taskreg.Protowire.{Protowire}
use poc_cometbft.Taskreg.Wire.Messages.{
  zero_create, zero_assign, zero_complete, unmarshal_create, unmarshal_assign, unmarshal_complete,
  unmarshal_id,
}
use poc_cometbft.Taskreg.Wire.Leaves.{WireRanges, Results}
use poc_cometbft.Taskreg.Wire.Ranges.{unmarshals-Results}
use poc_cometbft.Taskreg.Services
use poc_cometbft.Taskreg.Services.{
  Decoder, ServiceError, unknown_method, Handled, Interceptor, MethodDesc, handle, replied,
  create_task_handler, assign_task_handler, complete_task_handler, msg_service_desc,
}

-- A request: the full name of a method, and the bytes of its message.
abbrev pub Request : Type 0
Request = Bytes × Bytes

-- The message that a request brings, if its bytes are one.
abbrev pub read : {A : Type 0} → (A → Msg) → Outcome Bytes A → Option Msg
read message (ok a) = some (message a)
read message (err e) = none
read message panic = none

module _ (w : Protowire) where
  unfoldable pub message_of : Request → Option Msg
  message_of (name, bz) =
      if bytes_eq (bytes "/mychain.taskreg.v1.Msg/CreateTask") name
      then read Msg.create (unmarshal_create w zero_create bz)
      else if bytes_eq (bytes "/mychain.taskreg.v1.Msg/AssignTask") name
      then read Msg.assign (unmarshal_assign w zero_assign bz)
      else if bytes_eq (bytes "/mychain.taskreg.v1.Msg/CompleteTask") name
      then read Msg.complete (unmarshal_complete w zero_complete bz)
      else none

-- A request without a message changes nothing.
unfoldable pub apply_read : Registry → Option Msg → Registry
apply_read r none = r
apply_read r (some msg) = apply r msg

unfoldable pub apply_requests : Protowire → Registry → List Request → Registry
apply_requests w r [] = r
apply_requests w r (req ∷ reqs) = apply_requests w (apply_read r (message_of w req)) reqs

module _ (s : KvStoreService) (cdc : Codec) (w : Protowire)
    (list : Bytes → QueryListTasksRequest → Outcome Bytes QueryListTasksRequest)
    (interceptor : Option (Interceptor s)) where
  -- A `dec` that unmarshals the bytes of the request into the message.
  abbrev pub wire_dec : Bytes → Decoder
  wire_dec bz = record {
    create = λ m. unmarshal_create w m bz;
    assign = λ m. unmarshal_assign w m bz;
    complete = λ m. unmarshal_complete w m bz;
    id = λ id. unmarshal_id w id bz;
    list = list bz;
  }

  -- The method of a service with the full name `/service/method`.
  abbrev pub route : Bytes → Bytes → List (MethodDesc s) → Option (MethodDesc s)
  route service name [] = none
  route service name (m ∷ methods) =
      let later = route service name methods in
      if bytes_eq (bytes "/" ++ (service ++ (bytes "/" ++ m.method_name))) name
      then some m
      else later

  abbrev pub call : Option (MethodDesc s) → Bytes → Context s → Handled s
  call none bz ctx = (err unknown_method, ctx)
  call (some m) bz ctx = m.handler (wire_dec bz) interceptor ctx

  unfoldable pub serve : Context s → Request → Handled s
  serve ctx (name, bz) =
      call (route (msg_service_desc s cdc).service_name name (msg_service_desc s cdc).methods) bz
        ctx

  unfoldable pub serve_all : Context s → List Request → Context s
  serve_all ctx [] = ctx
  serve_all ctx (req ∷ reqs) = serve_all (serve ctx req).1 reqs

-- The interceptor calls the method with the message and the context that it is given.
abbrev pub Transparent : {s : KvStoreService} → Option (Interceptor s) → Type 1
Transparent {s} none = Unit {1}
Transparent {s} (some i) =
    (A : Type 0) (ctx : Context s) (a : A) (name : Bytes) (method : Context s → A → Handled s)
    → i.intercept ctx a name method ≡ method ctx a

module _ (s : KvStoreService) where
  handle_ok :
      {A : Type 0} (interceptor : Option (Interceptor s)) (name : Bytes)
      (method : Context s → A → Handled s) (a : A) (ctx : Context s)
      → Transparent interceptor
      → handle s name method (ok a) interceptor ctx ≡ method ctx a
  unfolding handle
  handle_ok none name method a ctx h = refl
  handle_ok {A} (some i) name method a ctx h = h A ctx a name method

  replied_after :
      {A : Type 0} (reply : A → Services.Reply) (o : Outcome Types.Error A × Context s)
      → (replied s reply o).1 ≡ o.1
  unfolding replied
  replied_after reply (ok a, ctx) = refl
  replied_after reply (err e, ctx) = refl
  replied_after reply (panic, ctx) = refl

module _ (s : KvStoreService) (sl : StoreLaws s) (cdc : Codec) (cl : CodecLaws cdc) (w : Protowire)
    (ranges : WireRanges w)
    (list : Bytes → QueryListTasksRequest → Outcome Bytes QueryListTasksRequest)
    (interceptor : Option (Interceptor s)) (transparent : Transparent interceptor) where
  -- The store holds the well-formed registry that a request leads to, which took one id at most.
  abbrev Served : Registry → Option Msg → Context s → Type 0
  Served r msg ctx =
      Abstracts s cdc ctx.store (apply_read r msg)
      × IsRegistry (apply_read r msg)
      × ((apply_read r msg).next ≤ r.next + 1)

  method-Served :
      {A : Type 0} (name : Bytes) (method : Context s → A → Handled s) (message : A → Msg)
      (o : Outcome Bytes A) (ctx : Context s) (r : Registry)
      → ((a : A) → (method ctx a).1 ≡ deliver s cdc ctx (message a))
      → Results (λ a. IsMsg (message a)) o
      → Abstracts s cdc ctx.store r
      → IsRegistry r
      → r.next + 1 < 2 ^ 64
      → Served r (read message o) (handle s name method o interceptor ctx).1
  unfolding apply_read handle
  method-Served name method message (ok a) ctx r delivers h abs v room =
      rw (handle_ok s interceptor name method a ctx transparent, delivers a)
        (
          deliver-refines s sl cdc cl ctx r (message a) abs v h,
          apply-IsRegistry r (message a) v h room,
          next-apply r (message a) room,
        )
  method-Served name method message (err e) ctx r delivers h abs v room = (abs, v, omega arith)
  method-Served name method message panic ctx r delivers h abs v room = (abs, v, omega arith)

  serve-Served :
      (ctx : Context s) (r : Registry) (name bz : Bytes)
      → IsText bz
      → Abstracts s cdc ctx.store r
      → IsRegistry r
      → r.next + 1 < 2 ^ 64
      → Served r (message_of w (name, bz)) (serve s cdc w list interceptor ctx (name, bz)).1
  unfolding serve message_of msg_service_desc create_task_handler assign_task_handler
      complete_task_handler apply_read deliver
  serve-Served ctx r name bz text abs v room =
      let read_ranges = unmarshals-Results w ranges bz text in
      elim (Bool-cases (bytes_eq (bytes "/mychain.taskreg.v1.Msg/CreateTask") name)) [
        | inl create ↦ rw create (
            method-Served _ _ Msg.create (unmarshal_create w zero_create bz) ctx r
              (λ msg. replied_after s _ _) read_ranges.2 abs v room)
        | inr other ↦
            rw other
              (elim (Bool-cases (bytes_eq (bytes "/mychain.taskreg.v1.Msg/AssignTask") name)) [
                | inl assign ↦ rw assign (
                    method-Served _ _ Msg.assign (unmarshal_assign w zero_assign bz) ctx r
                      (λ msg. replied_after s _ _) read_ranges.3 abs v room)
                | inr another ↦
                    rw another
                      (elim (Bool-cases
                        (bytes_eq (bytes "/mychain.taskreg.v1.Msg/CompleteTask") name)) [
                          | inl complete ↦ rw complete (
                              method-Served _ _ Msg.complete (unmarshal_complete w zero_complete bz)
                                ctx r (λ msg. replied_after s _ _) read_ranges.4 abs v room)
                          | inr unknown ↦ rw unknown (abs, v, omega arith)
                        ])
              ])
      ]

  -- Whatever requests of lengths that Go can give them are made of the service Msg, with an interceptor
  -- that calls the method or with none, on a store that holds a well-formed registry with an id left for
  -- each: the store holds a well-formed registry, the one to which those requests lead whose names are
  -- those of its methods and whose bytes are their messages, and which the others leave as it is.
  pub serve_all-refines :
      (reqs : List Request) (ctx : Context s) (r : Registry)
      → Abstracts s cdc ctx.store r
      → IsRegistry r
      → All (λ req. IsText req.1) reqs
      → r.next + length reqs < 2 ^ 64
      → Abstracts s cdc
          (serve_all s cdc w list interceptor ctx reqs).store
          (apply_requests w r reqs)
        × IsRegistry (apply_requests w r reqs)
  unfolding serve_all apply_requests
  serve_all-refines [] ctx r abs v texts room = (abs, v)
  serve_all-refines ((name, bz) ∷ reqs) ctx r abs v texts room =
      let (abs', v', near) = serve-Served ctx r name bz texts.0 abs v (omega arith) in
      serve_all-refines reqs (serve s cdc w list interceptor ctx (name, bz)).1
        (apply_read r (message_of w (name, bz))) abs' v' texts.1 (omega (arith, near))
