-- ===== src/Api/Routes.antt =====
-- api-backend/main.go: the table of routes. `{id}` and `{key}` are parameters by these names, which stand
-- for any segment of a path that is not empty.
use poc_cometbft.Prelude.{
  and_left, and_right, ◌≡◌, ◌≢◌, refl, sym, ap, ◌∙◌, List, [], ◌∷◌, ◌++◌, Bool, true, false, not,
  ◌&&◌, ℕ, ◌==◌, ==_iff,
}
use poc_cometbft.Bytes.{Bytes, bytes, bytes_eq, bytes_eq_iff}

pub data Method : Type 0 where
  get post put : Method

pub data Segment : Type 0 where
  static : Bytes → Segment
  param : Bytes → Segment

pub data Endpoint : Type 0 where
  health create_task list_tasks get_task assign_task complete_task fund_bounty : Endpoint
  claim_bounty get_bounty list_bounties get_config set_key get_key : Endpoint

pub record Route : Type 0 where
  pub method : Method
  pub pattern : List Segment
  pub endpoint : Endpoint

abbrev route : Method → List Segment → Endpoint → Route
route method pattern endpoint = record {
  method = method;
  pattern = static (bytes "api") ∷ pattern;
  endpoint = endpoint;
}

abbrev pub id_param : Bytes
id_param = bytes "id"

abbrev pub key_param : Bytes
key_param = bytes "key"

unfoldable pub routes : List Route
routes =
    route get (static (bytes "health") ∷ []) health
    ∷ route post (static (bytes "tasks") ∷ []) create_task
    ∷ route get (static (bytes "tasks") ∷ []) list_tasks
    ∷ route get (static (bytes "tasks") ∷ param id_param ∷ []) get_task
    ∷ route post (static (bytes "tasks") ∷ param id_param ∷ static (bytes "assign") ∷ [])
        assign_task
    ∷ route post (static (bytes "tasks") ∷ param id_param ∷ static (bytes "complete") ∷ [])
        complete_task
    ∷ route post (static (bytes "bounties") ∷ static (bytes "fund") ∷ []) fund_bounty
    ∷ route post (static (bytes "bounties") ∷ static (bytes "claim") ∷ []) claim_bounty
    ∷ route get (static (bytes "bounties") ∷ param id_param ∷ []) get_bounty
    ∷ route get (static (bytes "bounties") ∷ []) list_bounties
    ∷ route get (static (bytes "config") ∷ []) get_config
    ∷ route put (static (bytes "kv") ∷ param key_param ∷ []) set_key
    ∷ route get (static (bytes "kv") ∷ param key_param ∷ []) get_key
    ∷ []

-- The pattern stands for the path.
unfoldable pub Fits : List Segment → List Bytes → Type 0
Fits [] [] = Unit
Fits (static text ∷ pattern) (segment ∷ path) = (text ≡ segment) × Fits pattern path
Fits (param name ∷ pattern) (segment ∷ path) = (segment ≢ []) × Fits pattern path
Fits _ _ = ⊥

abbrev method_rank : Method → ℕ
method_rank get = 0
method_rank post = 1
method_rank put = 2

-- Whether a path may fit both patterns.
abbrev overlap : List Segment → List Segment → Bool
overlap [] [] = true
overlap (static a ∷ p) (static b ∷ q) = bytes_eq a b && overlap p q
overlap (static a ∷ p) (param name ∷ q) = overlap p q
overlap (param name ∷ p) (static b ∷ q) = overlap p q
overlap (param name ∷ p) (param other ∷ q) = overlap p q
overlap _ _ = false

overlap-Fits :
    (p q : List Segment) (path : List Bytes) → Fits p path → Fits q path → overlap p q ≡ true
unfolding Fits
overlap-Fits [] [] path f g = refl
overlap-Fits (static a ∷ p) (static b ∷ q) (t ∷ path) f g =
    rw ((bytes_eq_iff a b).1 (f.0 ∙ sym g.0)) (overlap-Fits p q path f.1 g.1)
overlap-Fits (static a ∷ p) (param name ∷ q) (t ∷ path) f g = overlap-Fits p q path f.1 g.1
overlap-Fits (param name ∷ p) (static b ∷ q) (t ∷ path) f g = overlap-Fits p q path f.1 g.1
overlap-Fits (param name ∷ p) (param other ∷ q) (t ∷ path) f g = overlap-Fits p q path f.1 g.1
overlap-Fits [] (static b ∷ q) [] f g = absurd g
overlap-Fits [] (param name ∷ q) [] f g = absurd g
overlap-Fits [] (x ∷ q) (t ∷ path) f g = absurd f
overlap-Fits (static a ∷ p) [] [] f g = absurd f
overlap-Fits (param name ∷ p) [] [] f g = absurd f
overlap-Fits (x ∷ p) [] (t ∷ path) f g = absurd g
overlap-Fits (static a ∷ p) (y ∷ q) [] f g = absurd f
overlap-Fits (param name ∷ p) (y ∷ q) [] f g = absurd f

abbrev clash : Route → Route → Bool
clash r q = method_rank r.method == method_rank q.method && overlap r.pattern q.pattern

abbrev clashes_none : Route → List Route → Bool
clashes_none r [] = true
clashes_none r (q ∷ rest) = not (clash r q) && clashes_none r rest

abbrev no_clash : List Route → Bool
no_clash [] = true
no_clash (r ∷ rest) = clashes_none r rest && no_clash rest

routes-no_clash : no_clash routes ≡ true
unfolding routes bytes_eq
routes-no_clash = refl

not-clash :
    (r q : Route) (between after : List Route)
    → clashes_none r (between ++ (q ∷ after)) ≡ true
    → not (clash r q) ≡ true
not-clash r q [] after h = and_left (not (clash r q)) _ h
not-clash r q (b ∷ between) after h = not-clash r q between after (and_right (not (clash r b)) _ h)

apart :
    (before between after : List Route) (r q : Route)
    → no_clash (before ++ (r ∷ (between ++ (q ∷ after)))) ≡ true
    → not (clash r q) ≡ true
apart [] between after r q h =
    not-clash r q between after (and_left (clashes_none r (between ++ (q ∷ after))) _ h)
apart (b ∷ before) between after r q h =
    apart before between after r q
      (and_right (clashes_none b (before ++ (r ∷ (between ++ (q ∷ after))))) _ h)

-- No two routes of the table with one method fit the same path.
pub routes_apart :
    (before between after : List Route) (r q : Route) (path : List Bytes)
    → routes ≡ before ++ (r ∷ (between ++ (q ∷ after)))
    → r.method ≡ q.method
    → Fits r.pattern path
    → ¬ Fits q.pattern path
routes_apart before between after r q path e same f g = true_or_false (
    sym (apart before between after r q (sym (ap no_clash e) ∙ routes-no_clash))
    ∙ rw ((==_iff _ _).1 (ap method_rank same), overlap-Fits r.pattern q.pattern path f g) refl)
  where
    true_or_false : true ≢ false
    true_or_false p = cc
