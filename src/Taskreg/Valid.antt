-- ===== src/Taskreg/Valid.antt =====
-- What `ValidateBasic` of mychain/x/taskreg/types/msgs.go keeps out of the registry.
use mathlib.Core.Path.{subst}
use mathlib.Core.Option.{some-injective}
use poc_cometbft.Prelude.{
  ℕ, ◌+◌, ◌^◌, ◌≤◌, ◌<◌, ◌≡◌, ◌≢◌, ◌⊎◌, refl, sym, ap, ◌∙◌, List, [], ◌∷◌, Option, none, some,
  Outcome, ok, err, panic, ok-injective, >>=-eq-ok, ◌==◌, length, arith, inl, inr, Bool-cases,
}
use poc_cometbft.Bytes.{Bytes, bytes_eq, bytes_eq_iff}
use poc_cometbft.Bytes.BigEndian.{IsU64}
use poc_cometbft.Taskreg.Types.{
  Task, opened, assigned, MsgCreateTask, MsgAssignTask, MsgCompleteTask, check, validate_create,
  validate_assign, validate_complete,
}
use poc_cometbft.Taskreg.Store.{KvStoreService, StoreLaws, Codec, CodecLaws}
use poc_cometbft.Taskreg.Keeper
use poc_cometbft.Taskreg.MsgServer.{Context, new_task}
use poc_cometbft.Taskreg.Registry
use poc_cometbft.Taskreg.Registry.{Registry, IsRegistry, put, assigned_to, done}
use poc_cometbft.Taskreg.Refines.{Abstracts}
use poc_cometbft.Taskreg.History.{
  Msg, IsMsg, AllMsg, apply, apply_all, deliver_all, deliver_all-refines,
}

module _ {E : Type 0} (parse_address : Bytes → Option E) (title_error : E) where
  -- `AccAddressFromBech32` has no error for the text.
  abbrev pub IsAddress : Bytes → Type 0
  IsAddress text = parse_address text ≡ none

  -- The task has a title, its creator is an address, and so is its assignee from ASSIGNED on.
  pub record IsProper (t : Task) : Type 0 where
    pub titled : t.title ≢ []
    pub creator_is : IsAddress t.creator
    pub assignee_is : (t.status ≡ opened) ⊎ IsAddress t.assignee

  abbrev pub AllProper : Registry → Type 0
  AllProper r = (id : ℕ) (t : Task) → r.tasks id ≡ some t → IsProper t

  unfoldable pub validate : Msg → Outcome E (Unit {0})
  validate (Msg.create msg) = validate_create parse_address title_error msg
  validate (Msg.assign msg) = validate_assign parse_address title_error msg
  validate (Msg.complete msg) = validate_complete parse_address title_error msg

  -- The messages that `ValidateBasic` returns nil for: those that the SDK hands on.
  unfoldable pub valid_ones : List Msg → List Msg
  valid_ones [] = []
  valid_ones (msg ∷ msgs) =
      let rest = valid_ones msgs in
      elim (validate msg) [ ok u ↦ msg ∷ rest | err e ↦ rest | panic ↦ rest ]

  check_ok : (o : Option E) (u : Unit {0}) → check parse_address title_error o ≡ ok u → o ≡ none
  check_ok none u h = refl
  check_ok (some e) u h = cc

  validate_create_ok :
      (msg : MsgCreateTask)
      → validate_create parse_address title_error msg ≡ ok tt
      → IsAddress msg.creator × (msg.title ≢ [])
  unfolding validate_create
  validate_create_ok msg h =
      let (u, creator, titled) =
        >>=-eq-ok (check parse_address title_error (parse_address msg.creator)) _ h in
      (check_ok _ u creator, λ e. refused (rw ((bytes_eq_iff msg.title []).1 e) at titled))
    where
      refused : ◌≢◌ {A = Outcome E (Unit {0})} (err title_error) (ok tt)
      refused e = cc

  validate_assign_ok :
      (msg : MsgAssignTask)
      → validate_assign parse_address title_error msg ≡ ok tt
      → IsAddress msg.creator × IsAddress msg.assignee
  unfolding validate_assign
  validate_assign_ok msg h =
      let (u, creator, assignee) =
        >>=-eq-ok (check parse_address title_error (parse_address msg.creator)) _ h in
      (check_ok _ u creator, check_ok _ tt assignee)

  put-AllProper : (r : Registry) (t : Task) → AllProper r → IsProper t → AllProper (put r t)
  put-AllProper r t all proper id u e = elim (Bool-cases (t.id == id)) [
    | inl same ↦ subst IsProper (some-injective _ _ (rw same at e)) proper
    | inr other ↦ all id u (rw other at e)
  ]

  assign_at-AllProper :
      (r : Registry) (msg : MsgAssignTask) (o : Option Task)
      → r.tasks msg.task_id ≡ o
      → AllProper r
      → IsAddress msg.assignee
      → AllProper (Registry.assign_at r msg o).1
  unfolding Registry.assign_at
  assign_at-AllProper r msg none e all h = all
  assign_at-AllProper r msg (some t) e all h = elim (Bool-cases (bytes_eq t.creator msg.creator)) [
    | inr other ↦ rw other all
    | inl mine ↦ elim (Bool-cases (t.status == opened)) [
      | inr closed ↦ rw (mine, closed) all
      | inl free ↦
          let was = all msg.task_id t e in
          rw (mine, free)
            (put-AllProper r _ all
              (record { titled = was.titled; creator_is = was.creator_is; assignee_is = inr h }))
    ]
  ]

  complete_at-AllProper :
      (r : Registry) (msg : MsgCompleteTask) (o : Option Task)
      → r.tasks msg.task_id ≡ o
      → AllProper r
      → IsAddress msg.assignee
      → AllProper (Registry.complete_at r msg o).1
  unfolding Registry.complete_at
  complete_at-AllProper r msg none e all h = all
  complete_at-AllProper r msg (some t) e all h =
      elim (Bool-cases (bytes_eq t.assignee msg.assignee)) [
        | inr other ↦ rw other all
        | inl mine ↦ elim (Bool-cases (t.status == assigned)) [
          | inr closed ↦ rw (mine, closed) all
          | inl free ↦
              let was = all msg.task_id t e in
              rw (mine, free)
                (put-AllProper r _ all (record {
                  titled = was.titled;
                  creator_is = was.creator_is;
                  assignee_is =
                      inr (ap parse_address ((bytes_eq_iff t.assignee msg.assignee).0 mine) ∙ h);
                }))
        ]
      ]

  apply-AllProper :
      (r : Registry) (msg : Msg) → AllProper r → validate msg ≡ ok tt → AllProper (apply r msg)
  unfolding apply validate Registry.create Registry.assign Registry.complete validate_complete
  apply-AllProper r (Msg.create msg) all h =
      let (creator, titled) = validate_create_ok msg h in
      put-AllProper r (new_task r.next msg) all
        (record { titled = titled; creator_is = creator; assignee_is = inl refl })
  apply-AllProper r (Msg.assign msg) all h =
      assign_at-AllProper r msg _ refl all (validate_assign_ok msg h).1
  apply-AllProper r (Msg.complete msg) all h =
      complete_at-AllProper r msg _ refl all (check_ok _ tt h)

  -- What is handed on of the messages: no more than there are, in their ranges, and leading to proper tasks.
  abbrev HandsOn : List Msg → Registry → Type 0
  HandsOn msgs r =
      AllMsg (valid_ones msgs)
      × (length (valid_ones msgs) ≤ length msgs)
      × AllProper (apply_all r (valid_ones msgs))

  HandsOn-one :
      (msg : Msg) (msgs : List Msg) (r : Registry) (o : Outcome E (Unit {0}))
      → validate msg ≡ o
      → IsMsg msg
      → AllProper r
      → ((r' : Registry) → AllProper r' → HandsOn msgs r')
      → HandsOn (msg ∷ msgs) r
  unfolding valid_ones apply_all
  HandsOn-one msg msgs r (ok tt) e h all later =
      let (ranges, short, proper) = later (apply r msg) (apply-AllProper r msg all e) in
      rw (e, valid_ones) ((h, ranges), omega (arith, short), proper)
  HandsOn-one msg msgs r (err fault) e h all later =
      let (ranges, short, proper) = later r all in
      rw (e, valid_ones) (ranges, omega (arith, short), proper)
  HandsOn-one msg msgs r panic e h all later =
      let (ranges, short, proper) = later r all in
      rw (e, valid_ones) (ranges, omega (arith, short), proper)

  valid_ones-HandsOn : (msgs : List Msg) (r : Registry) → AllMsg msgs → AllProper r → HandsOn msgs r
  unfolding valid_ones apply_all
  valid_ones-HandsOn [] r h all = (tt, omega arith, all)
  valid_ones-HandsOn (msg ∷ msgs) r h all =
      HandsOn-one msg msgs r (validate msg) refl h.0 all
        (λ r' all'. valid_ones-HandsOn msgs r' h.1 all')

  module _ (s : KvStoreService) (sl : StoreLaws s) (cdc : Codec) (cl : CodecLaws cdc) where
    -- From a store that holds a well-formed registry of proper tasks, with an id left for each message: of
    -- any messages with fields in the ranges of their types, those are delivered that `ValidateBasic`
    -- returns nil for; every task that `GetTask` then finds has a title that is not empty, an address
    -- for a creator, and an address for an assignee unless it is OPEN.
    pub get_task-IsProper :
        (msgs : List Msg) (ctx : Context s) (r : Registry) (id : ℕ) (t : Task)
        → Abstracts s cdc ctx.store r
        → IsRegistry r
        → AllProper r
        → AllMsg msgs
        → r.next + length msgs < 2 ^ 64
        → IsU64 id
        → Keeper.get_task s cdc (deliver_all s cdc ctx (valid_ones msgs)).store id ≡ ok (some t)
        → IsProper t
    get_task-IsProper msgs ctx r id t abs v all h room u found =
        let (ranges, short, proper) = valid_ones-HandsOn msgs r h all in
        let (held, formed) =
          deliver_all-refines s sl cdc cl (valid_ones msgs) ctx r abs v ranges
            (omega (arith, short)) in
        proper id t (ok-injective (sym (held.tasks_at id u) ∙ found))
