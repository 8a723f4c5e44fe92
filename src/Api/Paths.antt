-- ===== src/Api/Paths.antt =====
-- The ids in the paths of the requests.
use mathlib.Core.Option.{some-injective}
use poc_cometbft.Prelude.{
  ℕ, ◌≡◌, ◌≢◌, ◌↔◌, ◌⊎◌, inl, inr, refl, sym, ap, ◌∙◌, none, some, Option-cases,
}
use poc_cometbft.Bytes.{Bytes}
use poc_cometbft.Bytes.ParseUint.{IsUint, parse_uint, parse_uint_iff}
use poc_cometbft.Api.Respond.{respond_error}
use poc_cometbft.Api.ChainClient
use poc_cometbft.Api.ChainClient.{Chain}
use poc_cometbft.Api.Contract
use poc_cometbft.Api.Contract.{Client}
use poc_cometbft.Api.Handlers
use poc_cometbft.Api.Handlers.{path_id, answer, answer_tx, task}
use poc_cometbft.Api.Bounties
use poc_cometbft.Api.Statuses.{BadRequest}

pub path_id_iff : (s : Bytes) (n : ℕ) → (path_id s ≡ some n) ↔ IsUint s n
unfolding path_id
path_id_iff s n = elim (Option-cases (parse_uint s).1) [
  | inl no_error ↦ (
    λ h.
        (parse_uint_iff s n).0
          (λ i. (some-injective _ _ (rw (no_error, path_id) at h) i, no_error i)),
    λ u. rw (no_error, path_id) (ap (λ r. some r.0) ((parse_uint_iff s n).1 u)),
  )
  | inr (e, failed) ↦ (
    λ h. absurd (none_or_some (rw (failed, path_id) at h)),
    λ u. absurd (none_or_some (sym (ap (λ r. r.1) ((parse_uint_iff s n).1 u)) ∙ failed)),
  )
]
  where
    none_or_some : {A : Type 0} {a : A} → none ≢ some a
    none_or_some e = cc

module _ (c : Chain) (client : Client) (node : c.Node) (id_str assignee : Bytes) where
  -- What the four handlers with an id in their path do for the id `n`.
  abbrev pub Serves : ℕ → Type 0
  Serves n =
      (Handlers.get_task c node id_str ≡ answer 200 task (ChainClient.get_task c node n))
      × (Handlers.assign_task c node id_str (some assignee)
          ≡ answer_tx c 200 (ChainClient.assign_task c node n assignee))
      × (Handlers.complete_task c node id_str
          ≡ answer_tx c 200 (ChainClient.complete_task c node n))
      × (Bounties.get_bounty c client node id_str
          ≡ answer 200 (λ bounty. bounty) (Contract.get_bounty c client node n))

  abbrev pub Refuses : Type 0
  Refuses =
      BadRequest (Handlers.get_task c node id_str)
      × BadRequest (Handlers.assign_task c node id_str (some assignee)).0
      × BadRequest (Handlers.complete_task c node id_str).0
      × BadRequest (Bounties.get_bounty c client node id_str)

  serves : (n : ℕ) → path_id id_str ≡ some n → Serves n
  unfolding Handlers.get_task Handlers.assign_task Handlers.complete_task Bounties.get_bounty
  serves n h = (
    rw (h, Handlers.get_task) refl,
    rw (h, Handlers.assign_task) refl,
    rw (h, Handlers.complete_task) refl,
    rw (h, Bounties.get_bounty) refl,
  )

  refuses : path_id id_str ≡ none → Refuses
  unfolding Handlers.get_task Handlers.assign_task Handlers.complete_task Bounties.get_bounty
      BadRequest respond_error
  refuses h = (
    rw (h, Handlers.get_task) refl,
    rw (h, Handlers.assign_task) refl,
    rw (h, Handlers.complete_task) refl,
    rw (h, Bounties.get_bounty) refl,
  )

  -- Either the segment of the path is a decimal number of 64 bits, and the handlers that read a task,
  -- assign it, complete it or read a bounty ask the client for that number; or it is not, and all four
  -- answer with status 400.
  pub path_ids : ((n : ℕ) × IsUint id_str n × Serves n) ⊎ (((n : ℕ) → ¬ IsUint id_str n) × Refuses)
  path_ids = elim (Option-cases (path_id id_str)) [
    | inr (n, h) ↦ inl (n, (path_id_iff id_str n).0 h, serves n h)
    | inl h ↦ inr (λ n u. none_or_some (sym h ∙ (path_id_iff id_str n).1 u), refuses h)
  ]
    where
      none_or_some : {n : ℕ} → none ≢ some n
      none_or_some e = cc
