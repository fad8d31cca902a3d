-- ===== src/Tests/Serving.antt =====
-- The application and what wraps its handlers, at concrete inputs.
use captchapi.Prelude.{
  ℕ, zero, suc, ◌≡◌, refl, ◌⊎◌, String, Bool, not, Option, none, some, List, [], ◌∷◌, str_eq,
  eq_iff, arith, ◌≢◌, if◌then◌else◌, true, false,
}
use captchapi.App.{Governor, build_app_with_restart, build_app_with_restart-history}
use captchapi.Config.Handle.{Handle}
use captchapi.Middleware.{
  HeaderMap, Message, request_id_middleware, request_id_header, given_id, request_id-carried,
}
use captchapi.Prelude.{ap, sym}
use captchapi.Tests.{toy}
use captchapi.Tests.Configuration.{config, handle, patched_handle, past}

abbrev finish : ℕ → ℕ → Bool → Option (ℕ × ℕ × Bool)
finish zero burst proxied = none
finish (suc interval) zero proxied = none
finish (suc interval) (suc burst) proxied = some (suc interval, suc burst, proxied)

finish_zero : (interval : ℕ) (proxied : Bool) → finish interval 0 proxied ≡ none
finish_zero zero proxied = refl
finish_zero (suc interval) proxied = refl

finish_made :
    (i b : ℕ) (p : Bool) (l : ℕ × ℕ × Bool)
    → finish i b p ≡ some l
    → (l.0 ≡ i) × (l.1 ≡ b) × (l.2 ≡ p)
finish_made zero b p l e = cc
finish_made (suc i) zero p l e = cc
finish_made (suc i) (suc b) p l e =
    let same : (suc i, suc b, p) ≡ l = cc in
    (ap (λ x. x.0) (sym same), ap (λ x. x.1) (sym same), ap (λ x. x.2) (sym same))

abbrev governor : Governor
governor = record {
  Limiter = ℕ × ℕ × Bool;
  finish = finish;
  interval = λ l. l.0;
  burst = λ l. l.1;
  proxied = λ l. l.2;
  finish_zero_interval = λ b p. refl;
  finish_zero_burst = finish_zero;
  finish_positive = λ i b p short. ((suc i, suc b, p), refl);
  finish_made = finish_made;
}

build_app_with_restart-history_example :
    build_app_with_restart toy governor patched_handle none
    ≡ build_app_with_restart toy governor handle none
build_app_with_restart-history_example =
    build_app_with_restart-history toy governor handle patched_handle none past

-- A rate of zero.
abbrev stopped : Handle
stopped = record handle { current = record config { rate_limit_requests_per_second = 0 } }

-- Headers as a list of names and values.
abbrev get : String → List (String × String) → Option String
get name [] = none
get name ((k, v) ∷ rest) = if str_eq k name then some v else get name rest

abbrev without : String → List (String × String) → List (String × String)
without name [] = []
without name ((k, v) ∷ rest) =
    if str_eq k name then without name rest else (k, v) ∷ without name rest

abbrev insert : String → String → List (String × String) → List (String × String)
insert name value headers = (name, value) ∷ without name headers

get-insert_self :
    (name value : String) (headers : List (String × String))
    → get name (insert name value headers) ≡ some value
get-insert_self name value headers = ground (arith, eq_iff name name)

get-without :
    (name other : String) (headers : List (String × String))
    → name ≢ other
    → get other (without name headers) ≡ get other headers
get-without name other [] h = refl
get-without name other ((k, v) ∷ rest) h =
    ground (arith, eq_iff k name, eq_iff k other, h, get-without name other rest h)

get-insert_other :
    (name other value : String) (headers : List (String × String))
    → name ≢ other
    → get other (insert name value headers) ≡ get other headers
get-insert_other name other value headers h =
    ground (arith, eq_iff name other, h, get-without name other headers h)

abbrev headers : HeaderMap
headers = record {
  Headers = List (String × String);
  get = get;
  insert = insert;
  get-insert_self = get-insert_self;
  get-insert_other = get-insert_other;
}

abbrev request : Message headers String
request = record { headers = (request_id_header, "r-17") ∷ []; body = "GET /health" }

abbrev answered : Message headers String → Message headers String
answered m = record { headers = ("content-type", "text/plain") ∷ []; body = "ok" }

abbrev not_empty : String → Bool
not_empty s = not (str_eq s "")

request_id-carried_example :
    let response = request_id_middleware headers not_empty not_empty "6b1f" answered request in
    ((value : String)
      → get request_id_header request.headers ≡ some value
      → not_empty value ≡ true
      → value ≢ ""
      → get request_id_header response.headers ≡ some value)
    × ((get request_id_header request.headers ≡ none)
          ⊎ ((value : String) × (get request_id_header request.headers ≡ some value)
              × ((not_empty value ≡ false) ⊎ (value ≡ "")))
        → get request_id_header response.headers ≡ some "6b1f")
    × ((other : String)
        → request_id_header ≢ other
        → get other response.headers ≡ get other (answered request).headers)
    × (response.body ≡ "ok")
request_id-carried_example =
    request_id-carried headers not_empty not_empty "6b1f" answered request (λ s h. h) refl

kept_id : given_id not_empty (get request_id_header request.headers) "6b1f" ≡ "r-17"
unfolding given_id
kept_id = refl

stopped_panics : build_app_with_restart toy governor stopped none ≡ none
unfolding build_app_with_restart
stopped_panics = refl
