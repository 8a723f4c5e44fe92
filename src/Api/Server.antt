-- ===== src/Api/Server.antt =====
-- api-backend/main.go: the handlers behind the table of routes. The router, the decoding of bodies and the
-- recovery from panics are the libraries': chi's router is a record of its search.
use poc_cometbft.Prelude.{
  ℕ, ◌≡◌, List, [], ◌∷◌, ◌++◌, Option, none, some, Outcome, ok, err, panic, if◌then◌else◌,
}
use poc_cometbft.Bytes.{Bytes, bytes, bytes_eq}
use poc_cometbft.Api.Respond.{Response}
use poc_cometbft.Api.ChainClient.{Chain}
use poc_cometbft.Api.Contract.{Client}
use poc_cometbft.Api.KvClient.{Rpc}
use poc_cometbft.Api.Handlers
use poc_cometbft.Api.Handlers.{CreateTaskRequest, Data}
use poc_cometbft.Api.Bounties
use poc_cometbft.Api.Bounties.{FundBountyRequest}
use poc_cometbft.Api.Routes.{
  Method, Segment, static, param, Endpoint, health, create_task, list_tasks, get_task, assign_task,
  complete_task, fund_bounty, claim_bounty, get_bounty, list_bounties, get_config, set_key, get_key,
  Route, Fits, routes,
}

-- The parameters of a route, by their names.
abbrev pub Params : Type 0
Params = List (Bytes × Bytes)

-- The segments that the parameters of a pattern stand for.
unfoldable pub captured : List Segment → List Bytes → Params
captured (static text ∷ pattern) (segment ∷ path) = captured pattern path
captured (param name ∷ pattern) (segment ∷ path) = (name, segment) ∷ captured pattern path
captured _ _ = []

-- What chi finds for a method and a path: an endpoint with the parameters' values, nothing, or routes of
-- other methods alone.
pub data Found : Type 0 where
  found : Endpoint → Params → Found
  not_found method_not_allowed : Found

abbrev pub Router : Type 0
Router = List Route → Method → List Bytes → Found

-- chi's documentation: where a route of the method fits the path, one such route is found, with the
-- values of its parameters; where none does, none is.
pub record RouterLaws (find : Router) : Type 0 where
  pub hit :
      (before after : List Route) (r : Route) (path : List Bytes)
      → Fits r.pattern path
      → (before' : List Route) × (after' : List Route) × (r' : Route) × (before ++ (r ∷ after)
          ≡ before' ++ (r' ∷ after'))
        × (r'.method ≡ r.method)
        × Fits r'.pattern path
        × (find (before ++ (r ∷ after)) r.method path
            ≡ found r'.endpoint (captured r'.pattern path))
  pub miss :
      (table : List Route) (m : Method) (path : List Bytes)
      → ((before after : List Route) (r : Route)
          → table ≡ before ++ (r ∷ after)
          → r.method ≡ m
          → ¬ Fits r.pattern path)
      → (e : Endpoint) (values : Params) → ¬ (find table m path ≡ found e values)

-- `json.NewDecoder(r.Body).Decode` at the types of the requests' bodies.
pub record Decoders : Type 0 where
  pub create : Bytes → Option CreateTaskRequest
  pub assignee : Bytes → Option Bytes
  pub fund : Bytes → Option FundBountyRequest
  pub task_id : Bytes → Option ℕ
  pub value : Bytes → Option Bytes

pub record Request : Type 0 where
  pub method : Method
  pub path : List Bytes
  pub body : Bytes

-- What a response holds: the backend's own data, or the contract's JSON.
pub data Content (J : Type 0) : Type 0 where
  own : Data → Content J
  json : J → Content J

-- What the client gets: a handler's response, or a status alone.
pub data Sent (J : Type 0) : Type 0 where
  response : Response (Content J) → Sent J
  status : ℕ → Sent J

-- `middleware.Recoverer` answers a panic with status 500. No handler ends in an error.
unfoldable pub recovered : {D J : Type 0} → (D → Content J) → Outcome Bytes (Response D) → Sent J
recovered content (ok r) = response (record {
  status = r.status;
  success = r.success;
  data_of = mapped content r.data_of;
  error = r.error;
})
  where
    mapped : {D J : Type 0} → (D → Content J) → Option D → Option (Content J)
    mapped content none = none
    mapped content (some d) = some (content d)
recovered content (err e) = status 500
recovered content panic = status 500

-- `chi.URLParam`: the value of the parameter by its name, empty where the route has none.
unfoldable pub url_param : Bytes → Params → Bytes
url_param key [] = []
url_param key ((name, value) ∷ values) =
    let later = url_param key values in if bytes_eq name key then value else later

module _ (c : Chain) (r : Rpc) (hex : Bytes → Bytes) (client : Client) (decode : Decoders) where
  abbrev pub Nodes : Type 0
  Nodes = c.Node × r.Node

  abbrev pub on_chain : Nodes → Outcome Bytes (Response Data) × c.Node → Sent c.Json × Nodes
  on_chain nodes (result, node) = (recovered own result, (node, nodes.1))

  abbrev pub on_kvstore : Nodes → Outcome Bytes (Response Data) × r.Node → Sent c.Json × Nodes
  on_kvstore nodes (result, node) = (recovered own result, (nodes.0, node))

  -- The handler that the table names for an endpoint, with what it asks for in the path and in the body.
  unfoldable pub handler : Endpoint → Params → Bytes → Nodes → Sent c.Json × Nodes
  unfolding recovered url_param
  handler health values body nodes =
      (recovered own (Handlers.health c r hex nodes.0 nodes.1), nodes)
  handler create_task values body nodes =
      on_chain nodes (Handlers.create_task c nodes.0 (decode.create body))
  handler list_tasks values body nodes = (recovered own (Handlers.list_tasks c nodes.0), nodes)
  handler get_task values body nodes =
      (recovered own (Handlers.get_task c nodes.0 (url_param (bytes "id") values)), nodes)
  handler assign_task values body nodes =
      on_chain nodes
        (Handlers.assign_task c nodes.0 (url_param (bytes "id") values) (decode.assignee body))
  handler complete_task values body nodes =
      on_chain nodes (Handlers.complete_task c nodes.0 (url_param (bytes "id") values))
  handler fund_bounty values body nodes =
      on_chain nodes (Bounties.fund_bounty c client nodes.0 (decode.fund body))
  handler claim_bounty values body nodes =
      on_chain nodes (Bounties.claim_bounty c client nodes.0 (decode.task_id body))
  handler get_bounty values body nodes =
      (recovered json (Bounties.get_bounty c client nodes.0 (url_param (bytes "id") values)), nodes)
  handler list_bounties values body nodes =
      (recovered json (Bounties.list_bounties c client nodes.0), nodes)
  handler get_config values body nodes =
      (recovered json (Bounties.get_config c client nodes.0), nodes)
  handler set_key values body nodes =
      on_kvstore nodes
        (Handlers.set_key r hex nodes.1 (url_param (bytes "key") values) (decode.value body))
  handler get_key values body nodes =
      (recovered own (Handlers.get_key r hex nodes.1 (url_param (bytes "key") values)), nodes)

  unfoldable pub dispatch : Found → Bytes → Nodes → Sent c.Json × Nodes
  unfolding handler
  dispatch (found endpoint values) body nodes = handler endpoint values body nodes
  dispatch not_found body nodes = (status 404, nodes)
  dispatch method_not_allowed body nodes = (status 405, nodes)

  unfoldable pub serve_http : Router → Request → Nodes → Sent c.Json × Nodes
  unfolding dispatch routes
  serve_http find req nodes = dispatch (find routes req.method req.path) req.body nodes
