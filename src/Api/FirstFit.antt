-- ===== src/Api/FirstFit.antt =====
-- A router that takes the first route that fits: the assumptions on chi's can hold.
use poc_cometbft.Prelude.{
  ◌≡◌, ◌≢◌, refl, sym, ap, ◌∙◌, ◌⊎◌, ◌↔◌, inl, inr, List, [], ◌∷◌, ◌++◌, Bool, true, false, ◌&&◌,
  and_left, and_right, if◌then◌else◌, Bool-cases,
}
use poc_cometbft.Bytes.{Bytes, bytes_eq, bytes_eq_iff}
use poc_cometbft.Api.Routes.{Method, get, post, put, Segment, static, param, Endpoint, Route, Fits}
use poc_cometbft.Api.Server.{Router, RouterLaws, Found, Params, found, not_found, captured}

abbrev same_method : Method → Method → Bool
same_method get get = true
same_method post post = true
same_method put put = true
same_method _ _ = false

same_method_iff : (m n : Method) → (same_method m n ≡ true) ↔ (m ≡ n)
same_method_iff m n = (to m n, λ e. rw (← e) (self m))
  where
    to : (m n : Method) → same_method m n ≡ true → m ≡ n
    to get get h = refl
    to post post h = refl
    to put put h = refl
    to get post h = cc
    to get put h = cc
    to post get h = cc
    to post put h = cc
    to put get h = cc
    to put post h = cc

    self : (m : Method) → same_method m m ≡ true
    self get = refl
    self post = refl
    self put = refl

abbrev pub fits : List Segment → List Bytes → Bool
fits [] [] = true
fits (static text ∷ pattern) (segment ∷ path) = bytes_eq text segment && fits pattern path
fits (param name ∷ pattern) ([] ∷ path) = false
fits (param name ∷ pattern) ((c ∷ segment) ∷ path) = fits pattern path
fits _ _ = false

false_or_true : false ≢ true
false_or_true e = cc

fits→Fits :
    (pattern : List Segment) (path : List Bytes) → fits pattern path ≡ true → Fits pattern path
unfolding Fits
fits→Fits [] [] h = tt
fits→Fits [] (t ∷ path) h = absurd (false_or_true h)
fits→Fits (static text ∷ pattern) [] h = absurd (false_or_true h)
fits→Fits (param name ∷ pattern) [] h = absurd (false_or_true h)
fits→Fits (static text ∷ pattern) (t ∷ path) h = (
  (bytes_eq_iff text t).0 (and_left _ (fits pattern path) h),
  fits→Fits pattern path (and_right (bytes_eq text t) _ h),
)
fits→Fits (param name ∷ pattern) ([] ∷ path) h = absurd (false_or_true h)
fits→Fits (param name ∷ pattern) ((c ∷ t) ∷ path) h = ((λ e. cc), fits→Fits pattern path h)

Fits→fits :
    (pattern : List Segment) (path : List Bytes) → Fits pattern path → fits pattern path ≡ true
unfolding Fits
Fits→fits [] [] h = refl
Fits→fits [] (t ∷ path) h = absurd h
Fits→fits (static text ∷ pattern) [] h = absurd h
Fits→fits (param name ∷ pattern) [] h = absurd h
Fits→fits (static text ∷ pattern) (t ∷ path) h =
    rw ((bytes_eq_iff text t).1 h.0) (Fits→fits pattern path h.1)
Fits→fits (param name ∷ pattern) ([] ∷ path) h = absurd (h.0 refl)
Fits→fits (param name ∷ pattern) ((c ∷ t) ∷ path) h = Fits→fits pattern path h.1

abbrev takes : Method → List Bytes → Route → Bool
takes m path r = same_method r.method m && fits r.pattern path

abbrev pub first_fit : Router
first_fit [] m path = not_found
first_fit (r ∷ table) m path =
    let later = first_fit table m path in
    if takes m path r then found r.endpoint (captured r.pattern path) else later

-- A place in a table whose route is of the method and fits the path, and is what the search found.
abbrev Place : List Route → Method → List Bytes → Found → Type 0
Place table m path o =
    (before : List Route) × (after : List Route) × (r : Route) × (table ≡ before ++ (r ∷ after))
    × (r.method ≡ m)
    × Fits r.pattern path
    × (o ≡ found r.endpoint (captured r.pattern path))

takes→Place :
    (r : Route) (table : List Route) (m : Method) (path : List Bytes)
    → takes m path r ≡ true
    → (r.method ≡ m) × Fits r.pattern path
takes→Place r table m path h = (
  (same_method_iff r.method m).0 (and_left _ (fits r.pattern path) h),
  fits→Fits r.pattern path (and_right (same_method r.method m) _ h),
)

first_fit_cases :
    (table : List Route) (m : Method) (path : List Bytes)
    → (first_fit table m path ≡ not_found) ⊎ Place table m path (first_fit table m path)
first_fit_cases [] m path = inl refl
first_fit_cases (r ∷ table) m path = elim (Bool-cases (takes m path r)) [
  | inl here ↦
      let (method, fit) = takes→Place r table m path here in
      inr ([], table, r, refl, method, fit, rw here refl)
  | inr past ↦ elim (first_fit_cases table m path) [
    | inl none_fits ↦ inl (rw past none_fits)
    | inr (before, after, q, e, method, fit, hit) ↦
        inr (r ∷ before, after, q, ap (λ l. r ∷ l) e, method, fit, rw past hit)
  ]
]

pub first_fit-ne-not_found :
    (before after : List Route) (r : Route) (path : List Bytes)
    → Fits r.pattern path
    → first_fit (before ++ (r ∷ after)) r.method path ≢ not_found
first_fit-ne-not_found [] after r path f e =
    found_or_not (rw ((same_method_iff r.method r.method).1 refl, Fits→fits r.pattern path f) at e)
  where
    found_or_not : found r.endpoint (captured r.pattern path) ≢ not_found
    found_or_not p = cc
first_fit-ne-not_found (b ∷ before) after r path f e = elim (Bool-cases (takes r.method path b)) [
  | inl here ↦ found_or_not (rw here at e)
  | inr past ↦ first_fit-ne-not_found before after r path f (rw past at e)
]
  where
    found_or_not : found b.endpoint (captured b.pattern path) ≢ not_found
    found_or_not p = cc

pub first_fit-laws : RouterLaws first_fit
first_fit-laws = record {
  hit = λ before after r path f. elim (first_fit_cases (before ++ (r ∷ after)) r.method path) [
    | inl none_fits ↦ absurd (first_fit-ne-not_found before after r path f none_fits)
    | inr place ↦ place
  ];
  miss = λ table m path none_fits e values h. elim (first_fit_cases table m path) [
    | inl nothing ↦ found_or_not e values (sym h ∙ nothing)
    | inr (before, after, r, place, method, fit, hit) ↦ none_fits before after r place method fit
  ];
}
  where
    found_or_not : (e : Endpoint) (values : Params) → found e values ≢ not_found
    found_or_not e values p = cc
