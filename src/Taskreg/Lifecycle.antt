-- ===== src/Taskreg/Lifecycle.antt =====
-- The life of a task: OPEN, then ASSIGNED, then COMPLETED, whatever messages arrive.
use mathlib.Core.Path.{subst}
use mathlib.Core.Option.{some-injective}
use poc_cometbft.Prelude.{
  ℕ, ◌+◌, ◌^◌, ◌≤◌, ◌<◌, ◌≡◌, ◌⊎◌, refl, sym, ap, ◌∙◌, List, [], ◌∷◌, Option, none, some, ok, inl,
  inr, ◌==◌, ==_iff, arith, Bool-cases, length,
}
use poc_cometbft.Bytes.{bytes_eq, bytes_eq_iff}
use poc_cometbft.Bytes.BigEndian.{IsU64}
use poc_cometbft.Taskreg.Types.{Task, opened, assigned, completed, MsgAssignTask, MsgCompleteTask}
use poc_cometbft.Taskreg.Store.{KvStoreService, StoreLaws, Codec, CodecLaws}
use poc_cometbft.Taskreg.Keeper
use poc_cometbft.Taskreg.MsgServer.{Context}
use poc_cometbft.Taskreg.Registry
use poc_cometbft.Taskreg.Registry.{Registry, IsRegistry, put, assigned_to, done}
use poc_cometbft.Taskreg.Refines.{Abstracts}
use poc_cometbft.Taskreg.History.{
  Msg, create, assign, complete, AllMsg, apply, apply_all, apply-IsRegistry, next-apply,
  deliver_all, deliver_all-refines,
}

-- What one message may do to a task: its creator assigns it while it is open, or its assignee
-- completes it while it is assigned.
pub data Step : Task → Msg → Task → Type 0 where
  assigning :
      (t : Task) (msg : MsgAssignTask)
      → msg.task_id ≡ t.id
      → msg.creator ≡ t.creator
      → t.status ≡ opened
      → Step t (assign msg) (assigned_to t msg.assignee)
  completing :
      (t : Task) (msg : MsgCompleteTask)
      → msg.task_id ≡ t.id
      → msg.assignee ≡ t.assignee
      → t.status ≡ assigned
      → Step t (complete msg) (done t)

-- What a sequence of messages may do to a task.
pub data Reach : Task → List Msg → Task → Type 0 where
  here : {t : Task} → Reach t [] t
  skip : {t u : Task} {msgs : List Msg} (msg : Msg) → Reach t msgs u → Reach t (msg ∷ msgs) u
  step :
      {t u w : Task} {msg : Msg} {msgs : List Msg}
      → Step t msg u
      → Reach u msgs w
      → Reach t (msg ∷ msgs) w

-- A message leaves a stored task in its place, as it was or a step on.
abbrev Kept : Registry → ℕ → Task → Msg → Registry → Type 0
Kept r id t msg r' = (r'.tasks id ≡ some t) ⊎ ((u : Task) × (r'.tasks id ≡ some u) × Step t msg u)

same_task :
    (r : Registry) (id j : ℕ) (t t' : Task)
    → IsRegistry r
    → r.tasks id ≡ some t
    → r.tasks j ≡ some t'
    → t'.id ≡ id
    → t' ≡ t
same_task r id j t t' v e f same =
    some-injective _ _ (sym f ∙ ap r.tasks (sym (v.own_id j t' f) ∙ same) ∙ e)

assign_at-Kept :
    (r : Registry) (id : ℕ) (t : Task) (msg : MsgAssignTask) (o : Option Task)
    → IsRegistry r
    → r.tasks id ≡ some t
    → r.tasks msg.task_id ≡ o
    → Kept r id t (assign msg) (Registry.assign_at r msg o).1
unfolding Registry.assign_at
assign_at-Kept r id t msg none v e f = inl e
assign_at-Kept r id t msg (some t') v e f = elim (Bool-cases (bytes_eq t'.creator msg.creator)) [
  | inr other ↦ rw other (inl e)
  | inl mine ↦ elim (Bool-cases (t'.status == opened)) [
    | inr closed ↦ rw (mine, closed) (inl e)
    | inl free ↦
        rw (mine, free)
          (elim (Bool-cases (t'.id == id)) [
            | inr away ↦ inl (rw away e)
            | inl same ↦ inr (
              assigned_to t' msg.assignee,
              rw same refl,
              subst (λ w. Step w (assign msg) (assigned_to t' msg.assignee))
                  (same_task r id msg.task_id t t' v e f ((==_iff _ _).0 same))
                  (assigning t' msg (sym (v.own_id _ t' f)) (sym ((bytes_eq_iff _ _).0 mine))
                    ((==_iff _ _).0 free)),
            )
          ])
  ]
]

complete_at-Kept :
    (r : Registry) (id : ℕ) (t : Task) (msg : MsgCompleteTask) (o : Option Task)
    → IsRegistry r
    → r.tasks id ≡ some t
    → r.tasks msg.task_id ≡ o
    → Kept r id t (complete msg) (Registry.complete_at r msg o).1
unfolding Registry.complete_at
complete_at-Kept r id t msg none v e f = inl e
complete_at-Kept r id t msg (some t') v e f =
    elim (Bool-cases (bytes_eq t'.assignee msg.assignee)) [
      | inr other ↦ rw other (inl e)
      | inl mine ↦ elim (Bool-cases (t'.status == assigned)) [
        | inr closed ↦ rw (mine, closed) (inl e)
        | inl free ↦
            rw (mine, free)
              (elim (Bool-cases (t'.id == id)) [
                | inr away ↦ inl (rw away e)
                | inl same ↦ inr (
                  done t',
                  rw same refl,
                  subst (λ w. Step w (complete msg) (done t'))
                      (same_task r id msg.task_id t t' v e f ((==_iff _ _).0 same))
                      (completing t' msg (sym (v.own_id _ t' f)) (sym ((bytes_eq_iff _ _).0 mine))
                        ((==_iff _ _).0 free)),
                )
              ])
      ]
    ]

apply-Kept :
    (r : Registry) (id : ℕ) (t : Task) (msg : Msg)
    → IsRegistry r
    → r.tasks id ≡ some t
    → Kept r id t msg (apply r msg)
unfolding apply Registry.create Registry.assign Registry.complete
apply-Kept r id t (create msg) v e = inl (ground (arith, v.fresh id))
apply-Kept r id t (assign msg) v e = assign_at-Kept r id t msg _ v e refl
apply-Kept r id t (complete msg) v e = complete_at-Kept r id t msg _ v e refl

-- Over any messages, a stored task goes only such steps.
pub apply_all-Reach :
    (msgs : List Msg) (r : Registry) (id : ℕ) (t : Task)
    → IsRegistry r
    → AllMsg msgs
    → r.next + length msgs < 2 ^ 64
    → r.tasks id ≡ some t
    → (u : Task) × ((apply_all r msgs).tasks id ≡ some u) × Reach t msgs u
unfolding apply_all
apply_all-Reach [] r id t v h room e = (t, e, here)
apply_all-Reach (msg ∷ msgs) r id t v h room e =
    let room' : r.next + 1 < 2 ^ 64 = omega arith in
    let rest = λ (w : Task) (f : (apply r msg).tasks id ≡ some w).
      apply_all-Reach msgs (apply r msg) id w (apply-IsRegistry r msg v h.0 room') h.1
        (omega (arith, next-apply r msg room')) f in
    elim (apply-Kept r id t msg v e) [
      | inl still ↦ let (u, at, way) = rest t still in (u, at, skip msg way)
      | inr (w, moved, one) ↦ let (u, at, way) = rest w moved in (u, at, step one way)
    ]

-- What never changes, and that a completed task is final.
pub record IsLater (t u : Task) : Type 0 where
  pub same_id : u.id ≡ t.id
  pub same_title : u.title ≡ t.title
  pub same_description : u.description ≡ t.description
  pub same_creator : u.creator ≡ t.creator
  pub forward : t.status ≤ u.status
  pub same_assignee : assigned ≤ t.status → u.assignee ≡ t.assignee
  pub final : t.status ≡ completed → u.status ≡ completed

Step-IsLater : {t u : Task} {msg : Msg} → Step t msg u → IsLater t u
Step-IsLater (assigning t msg a b c) = ground arith
Step-IsLater (completing t msg a b c) = ground arith

IsLater-trans : {t u w : Task} → IsLater t u → IsLater u w → IsLater t w
IsLater-trans p q = ground arith

Reach-IsLater : {t u : Task} {msgs : List Msg} → Reach t msgs u → IsLater t u
Reach-IsLater here = ground arith
Reach-IsLater (skip msg way) = Reach-IsLater way
Reach-IsLater (step one way) = IsLater-trans (Step-IsLater one) (Reach-IsLater way)

module _ (s : KvStoreService) (sl : StoreLaws s) (cdc : Codec) (cl : CodecLaws cdc) where
  -- From a store that holds a well-formed registry, and with an id left for each message: a stored task
  -- is still stored after any messages with fields in the ranges of their types, and it got there by steps that its creator and then its assignee
  -- made. Its id, title, description and creator are the same, its status never goes back, its assignee
  -- stays from ASSIGNED on, and COMPLETED is final.
  pub task_lifecycle :
      (msgs : List Msg) (ctx : Context s) (r : Registry) (id : ℕ) (t : Task)
      → Abstracts s cdc ctx.store r
      → IsRegistry r
      → AllMsg msgs
      → r.next + length msgs < 2 ^ 64
      → IsU64 id
      → Keeper.get_task s cdc ctx.store id ≡ ok (some t)
      → (u : Task) × (Keeper.get_task s cdc (deliver_all s cdc ctx msgs).store id ≡ ok (some u))
        × Reach t msgs u
        × IsLater t u
  task_lifecycle msgs ctx r id t a v h room hid e =
      let stored : r.tasks id ≡ some t = cc (a.tasks_at id hid) in
      let (u, at, way) = apply_all-Reach msgs r id t v h room stored in
      let (a', v') = deliver_all-refines s sl cdc cl msgs ctx r a v h room in
      (u, a'.tasks_at id hid ∙ ap ok at, way, Reach-IsLater way)
