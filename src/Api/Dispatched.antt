-- ===== src/Api/Dispatched.antt =====
-- Which handler a request reaches.
use poc_cometbft.Prelude.{◌≡◌, refl, sym, ap, ◌∙◌, ◌⊎◌, inl, inr, List, [], ◌∷◌, ◌++◌}
use poc_cometbft.Bytes.{Bytes}
use poc_cometbft.Api.ChainClient.{Chain}
use poc_cometbft.Api.Contract.{Client}
use poc_cometbft.Api.KvClient.{Rpc}
use poc_cometbft.Api.Routes.{Route, Fits, routes, routes_apart}
use poc_cometbft.Api.Server.{
  Router, RouterLaws, Found, found, not_found, method_not_allowed, Decoders, Request, status,
  captured, handler, dispatch, serve_http,
}

module _ {A : Type 0} where
  -- Of two places in a list, they are the same, or one stands in front of the other.
  data Places (xs ys xs' ys' : List A) (x x' : A) : Type 0 where
    same : x ≡ x' → Places xs ys xs' ys' x x'
    first : (between : List A) → ys ≡ between ++ (x' ∷ ys') → Places xs ys xs' ys' x x'
    second : (between : List A) → ys' ≡ between ++ (x ∷ ys) → Places xs ys xs' ys' x x'

  places :
      (xs ys xs' ys' : List A) (x x' : A)
      → xs ++ (x ∷ ys) ≡ xs' ++ (x' ∷ ys')
      → Places xs ys xs' ys' x x'
  places [] ys [] ys' x x' e = same (cc)
  places [] ys (y ∷ xs') ys' x x' e = first xs' (cc)
  places (y ∷ xs) ys [] ys' x x' e = second xs (cc)
  places (y ∷ xs) ys (y' ∷ xs') ys' x x' e = again (places xs ys xs' ys' x x' (cc))
    where
      again : Places xs ys xs' ys' x x' → Places (y ∷ xs) ys (y' ∷ xs') ys' x x'
      again (same h) = same h
      again (first between h) = first between h
      again (second between h) = second between h

-- Two places in the table whose routes have one method and fit one path hold the same route.
one_route :
    (before after before' after' : List Route) (r r' : Route) (path : List Bytes)
    → routes ≡ before ++ (r ∷ after)
    → routes ≡ before' ++ (r' ∷ after')
    → r.method ≡ r'.method
    → Fits r.pattern path
    → Fits r'.pattern path
    → r ≡ r'
one_route before after before' after' r r' path e e' m f f' =
    by_place (places before after before' after' r r' (sym e ∙ e'))
  where
    by_place : Places before after before' after' r r' → r ≡ r'
    by_place (same h) = h
    by_place (first between h) =
        absurd
          (routes_apart before between after' r r' path (e ∙ ap (λ l. before ++ (r ∷ l)) h) m f f')
    by_place (second between h) = absurd (
        routes_apart before' between after r' r path (e' ∙ ap (λ l. before' ++ (r' ∷ l)) h) (sym m)
          f' f)

module _ (c : Chain) (kv : Rpc) (hex : Bytes → Bytes) (client : Client) (decode : Decoders)
    (find : Router) (laws : RouterLaws find) where
  -- A request whose method and path fit a route of the table is answered by that route's handler, given
  -- the values that the route's parameters have in the path.
  pub serve_http_lem :
      (before after : List Route) (r : Route) (path : List Bytes) (body : Bytes)
      (nodes : c.Node × kv.Node)
      → routes ≡ before ++ (r ∷ after)
      → Fits r.pattern path
      → serve_http c kv hex client decode find
          (record { method = r.method; path = path; body = body })
          nodes
        ≡ handler c kv hex client decode r.endpoint (captured r.pattern path) body nodes
  unfolding serve_http dispatch
  serve_http_lem before after r path body nodes e f =
      let (before', after', r', place, method, fits, hit) = laws.hit before after r path f in
      let one = one_route before after before' after' r r' path e (e ∙ place) (sym method) f fits in
      ap (λ table. dispatch c kv hex client decode (find table r.method path) body nodes) e
      ∙ ap (λ o. dispatch c kv hex client decode o body nodes) hit
      ∙ ap
          (λ (q : Route).
            handler c kv hex client decode q.endpoint (captured q.pattern path) body nodes)
          (sym one)

  -- A request that no route of its method fits reaches no handler: it is answered with status 404 or
  -- 405, and both nodes are left alone.
  pub serve_http_unknown :
      (req : Request) (nodes : c.Node × kv.Node)
      → ((before after : List Route) (r : Route)
          → routes ≡ before ++ (r ∷ after)
          → r.method ≡ req.method
          → ¬ Fits r.pattern req.path)
      → (serve_http c kv hex client decode find req nodes ≡ (status 404, nodes))
        ⊎ (serve_http c kv hex client decode find req nodes ≡ (status 405, nodes))
  unfolding serve_http dispatch
  serve_http_unknown req nodes none_fits = by_found (find routes req.method req.path) refl
    where
      by_found :
          (o : Found)
          → find routes req.method req.path ≡ o
          → (dispatch c kv hex client decode o req.body nodes ≡ (status 404, nodes))
            ⊎ (dispatch c kv hex client decode o req.body nodes ≡ (status 405, nodes))
      by_found (found endpoint values) e =
          absurd (laws.miss routes req.method req.path none_fits endpoint values e)
      by_found not_found e = inl refl
      by_found method_not_allowed e = inr refl
