-- ===== src/Taskreg/Wire/Lists.antt =====
-- mychain/x/taskreg/types/query.pb.go: the messages of ListTasks. The SDK marshals the pagination.
use mathlib.Core.Path.{subst}
use mathlib.Core.List.{append-nil, append_assoc}
use poc_cometbft.Prelude.{
  ℕ, ◌+◌, ◌<◌, ◌≡◌, sym, ap, ◌∙◌, List, [], ◌∷◌, ◌++◌, Option, none, some, Outcome, ok, ◌>>=◌,
  if◌then◌else◌, ◌==◌, ltb, length, arith, All,
}
use poc_cometbft.Bytes.{Bytes}
use poc_cometbft.Taskreg.Types.{Task, IsText}
use poc_cometbft.Taskreg.Protowire.{Protowire, WireLaws}
use poc_cometbft.Taskreg.Wire.{append_message, message_field, other_field, unmarshal}
use poc_cometbft.Taskreg.Wire.Steps.{Steps, Steps-nil, unmarshal-Steps, message_read}
use poc_cometbft.Taskreg.Wire.Appends.{then_message}
use poc_cometbft.Taskreg.Wire.ReadBack.{unmarshal-marshal_task}
use poc_cometbft.Taskreg.Wire.Nested.{Fits}
use poc_cometbft.Taskreg.Wire.Messages.{
  zero_task, marshal_task, unmarshal_task, append_tasks, size_tasks,
}

-- `Marshal`, `Size` and `Unmarshal` into a zero value, of `query.PageRequest` or `query.PageResponse`.
pub record PageCodec (P : Type 0) : Type 0 where
  pub marshal : P → Outcome Bytes Bytes
  pub size : P → ℕ
  pub unmarshal : Bytes → Outcome Bytes P

pub record ListTasksResponse (P : Type 0) : Type 0 where
  pub tasks : List Task
  pub pagination : Option P

module _ (w : Protowire) {P : Type 0} (page : PageCodec P) where
  -- The pagination as field `num`, left out where it is nil or marshalled to nothing.
  unfoldable pub append_page : Bytes → ℕ → Option P → Outcome Bytes Bytes
  append_page b num none = ok b
  append_page b num (some p) = do
    bz ← page.marshal p
    ok (if ltb 0 (length bz) then append_message w b num bz else b)

  unfoldable pub size_page : ℕ → Option P → ℕ
  size_page num none = 0
  size_page num (some p) =
      if page.size p == 0 then 0 else w.size_tag num + w.size_bytes (page.size p)

  unfoldable pub page_field : {A : Type 0} → Bytes → (P → A) → Outcome Bytes (A × Bytes)
  page_field b m = message_field w b (λ bz. do p ← page.unmarshal bz; ok (m p))

  unfoldable pub marshal_list_request : Option P → Outcome Bytes Bytes
  unfolding append_page
  marshal_list_request pagination = append_page [] 1 pagination

  unfoldable pub size_list_request : Option P → ℕ
  size_list_request pagination = size_page 1 pagination

  unfoldable pub list_request_field : Option P → ℕ → ℕ → Bytes → Outcome Bytes (Option P × Bytes)
  unfolding page_field
  list_request_field m num typ b =
      if num == 1 then page_field b (λ p. some p) else other_field w m b typ

  unfoldable pub unmarshal_list_request : Option P → Bytes → Outcome Bytes (Option P)
  unmarshal_list_request = unmarshal w list_request_field

  unfoldable pub marshal_list_response : ListTasksResponse P → Outcome Bytes Bytes
  unfolding append_page
  marshal_list_response m = append_page (append_tasks w [] m.tasks) 2 m.pagination

  unfoldable pub size_list_response : ListTasksResponse P → ℕ
  size_list_response m = size_tasks w m.tasks + size_page 2 m.pagination

  unfoldable pub list_response_field :
      ListTasksResponse P → ℕ → ℕ → Bytes → Outcome Bytes (ListTasksResponse P × Bytes)
  unfolding page_field
  list_response_field m num typ b =
      if num == 1
      then message_field w b (λ bz. do
        task ← unmarshal_task w zero_task bz
        ok (record m { tasks = m.tasks ++ (task ∷ []) }))
      else if num == 2
      then page_field b (λ p. record m { pagination = some p })
      else other_field w m b typ

  unfoldable pub unmarshal_list_response :
      ListTasksResponse P → Bytes → Outcome Bytes (ListTasksResponse P)
  unmarshal_list_response = unmarshal w list_response_field

module _ (w : Protowire) (l : WireLaws w) {P : Type 0} (page : PageCodec P) where
  -- The SDK marshals the pagination to bytes, of a length that Go can give them, and reads it back.
  abbrev pub ReadsBack : P → Bytes → Type 0
  ReadsBack p bz =
      (page.marshal p ≡ ok bz) × (page.unmarshal bz ≡ ok p) × IsText bz × (0 < length bz)

  abbrev pub response : List Task → ListTasksResponse P
  response ts = record { tasks = ts; pagination = none }

  read_task_into :
      (before : List Task) (t : Task) (rest : Bytes)
      → Fits w l t
      → list_response_field w page
          (response before)
          1
          w.bytes_type
          (w.append_bytes [] (marshal_task w t) ++ rest)
        ≡ ok (response (before ++ (t ∷ [])), rest)
  unfolding list_response_field
  read_task_into before t rest h = message_read w l (marshal_task w t) _ _ rest h.1 (
      ap (λ r. r >>= (λ task. ok (response (before ++ (task ∷ [])))))
        (unmarshal-marshal_task w l t h.0))

  tasks-Steps :
      (before ts : List Task) (b : Bytes)
      → All (Fits w l) ts
      → Steps w (list_response_field w page) (response []) b (response before)
      → Steps w
          (list_response_field w page)
          (response [])
          (append_tasks w b ts)
          (response (before ++ ts))
  unfolding append_tasks
  tasks-Steps before [] b h s =
      subst (λ ts. Steps w (list_response_field w page) (response []) b (response ts))
        (sym (append-nil before)) s
  tasks-Steps before (t ∷ ts) b h s =
      subst
        (λ us.
          Steps w (list_response_field w page) (response [])
            (append_tasks w (append_message w b 1 (marshal_task w t)) ts) (response us))
        (append_assoc before (t ∷ []) ts)
        (tasks-Steps (before ++ (t ∷ [])) ts (append_message w b 1 (marshal_task w t)) h.1 (
          then_message w l (list_response_field w page) (response []) b 1 (omega arith, omega arith)
            (response before) (response (before ++ (t ∷ []))) (marshal_task w t)
            (λ rest. read_task_into before t rest h.0) s))

  append_page_lem :
      (b : Bytes) (num : ℕ) (p : P) (bz : Bytes)
      → ReadsBack p bz
      → append_page w page b num (some p) ≡ ok (append_message w b num bz)
  unfolding append_page
  append_page_lem b num p bz h = rw h.0 (ground (arith, h.3))

  page_read :
      {A : Type 0} (m : P → A) (p : P) (bz rest : Bytes)
      → ReadsBack p bz
      → page_field w page (w.append_bytes [] bz ++ rest) m ≡ ok (m p, rest)
  unfolding page_field
  page_read m p bz rest h = message_read w l bz _ _ rest h.2 (ap (λ r. r >>= (λ p. ok (m p))) h.1)

  -- A QueryListTasksRequest, and a QueryListTasksResponse, with a pagination is read back from what
  -- `Marshal` writes, if the SDK's methods read the pagination back from some bytes, and the tasks'
  -- fields and the lengths of the parts are in the ranges of their types.
  pub unmarshal-marshal_lists :
      (ts : List Task) (p : P) (bz : Bytes)
      → All (Fits w l) ts
      → ReadsBack p bz
      → ((marshal_list_request w page (some p) >>= unmarshal_list_request w page none)
          ≡ ok (some p))
        × ((marshal_list_response w page (record { tasks = ts; pagination = some p })
              >>= unmarshal_list_response w page (response []))
            ≡ ok (record { tasks = ts; pagination = some p }))
  unfolding marshal_list_request marshal_list_response unmarshal_list_request
      unmarshal_list_response list_request_field list_response_field
  unmarshal-marshal_lists ts p bz fits h = (
    ap (λ o. o >>= unmarshal w (list_request_field w page) none) (append_page_lem [] 1 p bz h)
        ∙ unmarshal-Steps w (list_request_field w page) none (some p) (append_message w [] 1 bz) (
            then_message w l (list_request_field w page) none [] 1 (omega arith, omega arith) none
              (some p) bz (λ rest. page_read (λ q. some q) p bz rest h)
              (Steps-nil w (list_request_field w page) none)),
    ap (λ o. o >>= unmarshal w (list_response_field w page) (response []))
          (append_page_lem (append_tasks w [] ts) 2 p bz h)
        ∙ unmarshal-Steps w (list_response_field w page) (response [])
            (record { tasks = ts; pagination = some p })
            (append_message w (append_tasks w [] ts) 2 bz)
            (then_message w l (list_response_field w page) (response []) (append_tasks w [] ts) 2
              (omega arith, omega arith) (response ts) (record { tasks = ts; pagination = some p })
              bz (λ rest. page_read (λ q. record (response ts) { pagination = some q }) p bz rest h)
              (tasks-Steps [] ts [] fits (Steps-nil w (list_response_field w page) (response [])))),
  )
