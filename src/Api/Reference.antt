-- ===== src/Api/Reference.antt =====
-- The requests of docs/08-API-REFERENCE.md, and how api-backend answers them.
use poc_cometbft.Prelude.{◌≡◌, ◌≢◌, refl, List, [], ◌∷◌, take, drop}
use poc_cometbft.Bytes.{Bytes, bytes, bytes_eq}
use poc_cometbft.Api.ChainClient.{Chain}
use poc_cometbft.Api.Contract.{Client}
use poc_cometbft.Api.KvClient.{Rpc}
use poc_cometbft.Api.Handlers
use poc_cometbft.Api.Bounties
use poc_cometbft.Api.Routes.{Method, get, post, put, static, param, Route, Fits, routes}
use poc_cometbft.Api.Routes
use poc_cometbft.Api.Server.{
  Router, RouterLaws, Decoders, Sent, own, json, recovered, on_chain, on_kvstore, Nodes, handler,
  serve_http, captured, url_param,
}
use poc_cometbft.Api.Dispatched.{serve_http_lem}

-- The requests that the reference lists, with the values in their paths.
pub data ApiRequest : Type 0 where
  read_health post_task read_tasks post_fund post_claim read_bounties read_config : ApiRequest
  read_task post_assign post_complete read_bounty put_key read_key : Bytes → ApiRequest

abbrev pub method_of : ApiRequest → Method
method_of read_health = get
method_of post_task = post
method_of read_tasks = get
method_of (read_task id) = get
method_of (post_assign id) = post
method_of (post_complete id) = post
method_of post_fund = post
method_of post_claim = post
method_of (read_bounty id) = get
method_of read_bounties = get
method_of read_config = get
method_of (put_key key) = put
method_of (read_key key) = get

-- The segments of the path.
abbrev pub path_of : ApiRequest → List Bytes
path_of read_health = bytes "api" ∷ bytes "health" ∷ []
path_of post_task = bytes "api" ∷ bytes "tasks" ∷ []
path_of read_tasks = bytes "api" ∷ bytes "tasks" ∷ []
path_of (read_task id) = bytes "api" ∷ bytes "tasks" ∷ id ∷ []
path_of (post_assign id) = bytes "api" ∷ bytes "tasks" ∷ id ∷ bytes "assign" ∷ []
path_of (post_complete id) = bytes "api" ∷ bytes "tasks" ∷ id ∷ bytes "complete" ∷ []
path_of post_fund = bytes "api" ∷ bytes "bounties" ∷ bytes "fund" ∷ []
path_of post_claim = bytes "api" ∷ bytes "bounties" ∷ bytes "claim" ∷ []
path_of (read_bounty id) = bytes "api" ∷ bytes "bounties" ∷ id ∷ []
path_of read_bounties = bytes "api" ∷ bytes "bounties" ∷ []
path_of read_config = bytes "api" ∷ bytes "config" ∷ []
path_of (put_key key) = bytes "api" ∷ bytes "kv" ∷ key ∷ []
path_of (read_key key) = bytes "api" ∷ bytes "kv" ∷ key ∷ []

-- A value in a path is not empty.
abbrev pub IsGiven : ApiRequest → Type 0
IsGiven (read_task id) = id ≢ []
IsGiven (post_assign id) = id ≢ []
IsGiven (post_complete id) = id ≢ []
IsGiven (read_bounty id) = id ≢ []
IsGiven (put_key key) = key ≢ []
IsGiven (read_key key) = key ≢ []
IsGiven _ = Unit

module _ (c : Chain) (r : Rpc) (hex : Bytes → Bytes) (client : Client) (decode : Decoders) where
  -- What the reference has a request do.
  abbrev pub answered :
      ApiRequest → Bytes → Nodes c r hex client decode → Sent c.Json × Nodes c r hex client decode
  answered read_health body nodes = (recovered own (Handlers.health c r hex nodes.0 nodes.1), nodes)
  answered post_task body nodes =
      on_chain c r hex client decode nodes (Handlers.create_task c nodes.0 (decode.create body))
  answered read_tasks body nodes = (recovered own (Handlers.list_tasks c nodes.0), nodes)
  answered (read_task id) body nodes = (recovered own (Handlers.get_task c nodes.0 id), nodes)
  answered (post_assign id) body nodes =
      on_chain c r hex client decode nodes
        (Handlers.assign_task c nodes.0 id (decode.assignee body))
  answered (post_complete id) body nodes =
      on_chain c r hex client decode nodes (Handlers.complete_task c nodes.0 id)
  answered post_fund body nodes =
      on_chain c r hex client decode nodes
        (Bounties.fund_bounty c client nodes.0 (decode.fund body))
  answered post_claim body nodes =
      on_chain c r hex client decode nodes
        (Bounties.claim_bounty c client nodes.0 (decode.task_id body))
  answered (read_bounty id) body nodes =
      (recovered json (Bounties.get_bounty c client nodes.0 id), nodes)
  answered read_bounties body nodes =
      (recovered json (Bounties.list_bounties c client nodes.0), nodes)
  answered read_config body nodes = (recovered json (Bounties.get_config c client nodes.0), nodes)
  answered (put_key key) body nodes =
      on_kvstore c r hex client decode nodes
        (Handlers.set_key r hex nodes.1 key (decode.value body))
  answered (read_key key) body nodes = (recovered own (Handlers.get_key r hex nodes.1 key), nodes)

module _ (c : Chain) (r : Rpc) (hex : Bytes → Bytes) (client : Client) (decode : Decoders)
    (find : Router) (laws : RouterLaws find) where
  -- Every request of the API reference, with values in its path that are not empty, is answered by the
  -- handler that the reference has for its method and path, which gets the value in the path and what the
  -- body decodes to for it, provided that the router meets chi's documentation.
  pub serve_http-answered :
      (q : ApiRequest) (body : Bytes) (nodes : Nodes c r hex client decode)
      → IsGiven q
      → serve_http c r hex client decode find
          (record { method = method_of q; path = path_of q; body = body })
          nodes
        ≡ answered c r hex client decode q body nodes
  unfolding routes Fits captured url_param handler bytes_eq
  serve_http-answered read_health body nodes given =
      serve_http_lem c r hex client decode find laws (take 0 routes) (drop 1 routes)
        (record {
          method = get;
          pattern = static (bytes "api") ∷ static (bytes "health") ∷ [];
          endpoint = Routes.health;
        })
        (bytes "api" ∷ bytes "health" ∷ []) body nodes refl (refl, (refl, tt))
  serve_http-answered post_task body nodes given =
      serve_http_lem c r hex client decode find laws (take 1 routes) (drop 2 routes)
        (record {
          method = post;
          pattern = static (bytes "api") ∷ static (bytes "tasks") ∷ [];
          endpoint = Routes.create_task;
        })
        (bytes "api" ∷ bytes "tasks" ∷ []) body nodes refl (refl, (refl, tt))
  serve_http-answered read_tasks body nodes given =
      serve_http_lem c r hex client decode find laws (take 2 routes) (drop 3 routes)
        (record {
          method = get;
          pattern = static (bytes "api") ∷ static (bytes "tasks") ∷ [];
          endpoint = Routes.list_tasks;
        })
        (bytes "api" ∷ bytes "tasks" ∷ []) body nodes refl (refl, (refl, tt))
  serve_http-answered (read_task id) body nodes given =
      serve_http_lem c r hex client decode find laws (take 3 routes) (drop 4 routes)
        (record {
          method = get;
          pattern = static (bytes "api") ∷ static (bytes "tasks") ∷ param (bytes "id") ∷ [];
          endpoint = Routes.get_task;
        })
        (bytes "api" ∷ bytes "tasks" ∷ id ∷ []) body nodes refl (refl, (refl, (given, tt)))
  serve_http-answered (post_assign id) body nodes given =
      serve_http_lem c r hex client decode find laws (take 4 routes) (drop 5 routes)
        (record {
          method = post;
          pattern =
              static (bytes "api")
              ∷ static (bytes "tasks")
              ∷ param (bytes "id")
              ∷ static (bytes "assign")
              ∷ [];
          endpoint = Routes.assign_task;
        })
        (bytes "api" ∷ bytes "tasks" ∷ id ∷ bytes "assign" ∷ []) body nodes refl
        (refl, (refl, (given, (refl, tt))))
  serve_http-answered (post_complete id) body nodes given =
      serve_http_lem c r hex client decode find laws (take 5 routes) (drop 6 routes)
        (record {
          method = post;
          pattern =
              static (bytes "api")
              ∷ static (bytes "tasks")
              ∷ param (bytes "id")
              ∷ static (bytes "complete")
              ∷ [];
          endpoint = Routes.complete_task;
        })
        (bytes "api" ∷ bytes "tasks" ∷ id ∷ bytes "complete" ∷ []) body nodes refl
        (refl, (refl, (given, (refl, tt))))
  serve_http-answered post_fund body nodes given =
      serve_http_lem c r hex client decode find laws (take 6 routes) (drop 7 routes)
        (record {
          method = post;
          pattern = static (bytes "api") ∷ static (bytes "bounties") ∷ static (bytes "fund") ∷ [];
          endpoint = Routes.fund_bounty;
        })
        (bytes "api" ∷ bytes "bounties" ∷ bytes "fund" ∷ []) body nodes refl
        (refl, (refl, (refl, tt)))
  serve_http-answered post_claim body nodes given =
      serve_http_lem c r hex client decode find laws (take 7 routes) (drop 8 routes)
        (record {
          method = post;
          pattern = static (bytes "api") ∷ static (bytes "bounties") ∷ static (bytes "claim") ∷ [];
          endpoint = Routes.claim_bounty;
        })
        (bytes "api" ∷ bytes "bounties" ∷ bytes "claim" ∷ []) body nodes refl
        (refl, (refl, (refl, tt)))
  serve_http-answered (read_bounty id) body nodes given =
      serve_http_lem c r hex client decode find laws (take 8 routes) (drop 9 routes)
        (record {
          method = get;
          pattern = static (bytes "api") ∷ static (bytes "bounties") ∷ param (bytes "id") ∷ [];
          endpoint = Routes.get_bounty;
        })
        (bytes "api" ∷ bytes "bounties" ∷ id ∷ []) body nodes refl (refl, (refl, (given, tt)))
  serve_http-answered read_bounties body nodes given =
      serve_http_lem c r hex client decode find laws (take 9 routes) (drop 10 routes)
        (record {
          method = get;
          pattern = static (bytes "api") ∷ static (bytes "bounties") ∷ [];
          endpoint = Routes.list_bounties;
        })
        (bytes "api" ∷ bytes "bounties" ∷ []) body nodes refl (refl, (refl, tt))
  serve_http-answered read_config body nodes given =
      serve_http_lem c r hex client decode find laws (take 10 routes) (drop 11 routes)
        (record {
          method = get;
          pattern = static (bytes "api") ∷ static (bytes "config") ∷ [];
          endpoint = Routes.get_config;
        })
        (bytes "api" ∷ bytes "config" ∷ []) body nodes refl (refl, (refl, tt))
  serve_http-answered (put_key key) body nodes given =
      serve_http_lem c r hex client decode find laws (take 11 routes) (drop 12 routes)
        (record {
          method = put;
          pattern = static (bytes "api") ∷ static (bytes "kv") ∷ param (bytes "key") ∷ [];
          endpoint = Routes.set_key;
        })
        (bytes "api" ∷ bytes "kv" ∷ key ∷ []) body nodes refl (refl, (refl, (given, tt)))
  serve_http-answered (read_key key) body nodes given =
      serve_http_lem c r hex client decode find laws (take 12 routes) (drop 13 routes)
        (record {
          method = get;
          pattern = static (bytes "api") ∷ static (bytes "kv") ∷ param (bytes "key") ∷ [];
          endpoint = Routes.get_key;
        })
        (bytes "api" ∷ bytes "kv" ∷ key ∷ []) body nodes refl (refl, (refl, (given, tt)))
