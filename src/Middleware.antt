-- ===== src/Middleware.antt =====
-- src/middleware/request_id.rs and metrics.rs, and src/routes/health.rs: what wraps a handler. The
-- handler that comes next is a parameter; so are `Uuid::new_v4`, the header maps of the crate http
-- and its check of a header's value.
use captchapi.Prelude.{
  ℕ, ◌+◌, ◌-◌, ◌≡◌, ◌≢◌, ◌⊎◌, inl, inr, ◌∙◌, ap, eq_iff, refl, String, Bool, true, false, Option,
  none, some, List, [], ◌∷◌, str_eq, arith, if◌then◌else◌,
}

-- `HeaderMap`: `get` is the first value under a name, `insert` replaces the values under one.
pub record HeaderMap : Type 1 where
  pub Headers : Type 0
  pub get : String → Headers → Option String
  pub insert : String → String → Headers → Headers
  pub get-insert_self :
      (name value : String) (headers : Headers) → get name (insert name value headers) ≡ some value
  pub get-insert_other :
      (name other value : String) (headers : Headers)
      → name ≢ other
      → get other (insert name value headers) ≡ get other headers

abbrev pub request_id_header : String
request_id_header = "x-request-id"

-- The value of the request's header if it is text (`to_str`) and not empty, or else a new UUID.
unfoldable pub given_id : (String → Bool) → Option String → String → String
given_id is_text none fresh = fresh
given_id is_text (some value) fresh =
    if is_text value then (if str_eq value "" then fresh else value) else fresh

given_id_fits :
    (is_text is_header_value : String → Bool) (uuid : String) (given : Option String)
    → ((s : String) → is_text s ≡ true → is_header_value s ≡ true)
    → is_header_value uuid ≡ true
    → is_header_value (given_id is_text given uuid) ≡ true
unfolding given_id
given_id_fits is_text is_header_value uuid none texts fresh = fresh
given_id_fits is_text is_header_value uuid (some value) texts fresh = ground (arith, texts value)

given_id-kept :
    (is_text : String → Bool) (uuid : String) (given : Option String) (value : String)
    → given ≡ some value
    → is_text value ≡ true
    → value ≢ ""
    → given_id is_text given uuid ≡ value
unfolding given_id
given_id-kept is_text uuid none value e text some_text = cc
given_id-kept is_text uuid (some v) value e text some_text =
    let same : v ≡ value = cc in rw same (ground (arith, text, some_text, eq_iff value ""))

given_id-new :
    (is_text : String → Bool) (uuid : String) (given : Option String)
    → (given ≡ none)
      ⊎ ((value : String) × (given ≡ some value) × ((is_text value ≡ false) ⊎ (value ≡ "")))
    → given_id is_text given uuid ≡ uuid
unfolding given_id
given_id-new is_text uuid none missing = refl
given_id-new is_text uuid (some v) (inl e) = cc
given_id-new is_text uuid (some v) (inr (value, e, inl blank)) =
    let same : v ≡ value = cc in rw (same, blank) refl
given_id-new is_text uuid (some v) (inr (value, e, inr empty)) =
    let same : v ≡ "" = cc in rw same (ground (arith, eq_iff "" ""))

-- `track_request_duration`: the histogram records the milliseconds between two readings of the
-- clock, which does not run back.
unfoldable pub track_request_duration : {A B : Type 0} → ℕ → ℕ → (A → B) → A → List ℕ → B × List ℕ
track_request_duration begun ended next request durations =
    (next request, (ended - begun) ∷ durations)

-- The counter of health checks, and the answer.
unfoldable pub health_check : ℕ → ℕ × List (String × String)
health_check health_checks = (health_checks + 1, ("status", "healthy") ∷ [])

module _ (m : HeaderMap) where
  open m use {Headers, get, insert, get-insert_self, get-insert_other}

  -- The headers of a message, and the rest of it.
  pub record Message (B : Type 0) : Type 0 where
    pub headers : Headers
    pub body : B

  module _ {A B : Type 0} (is_text is_header_value : String → Bool) (uuid : String)
      (next : Message A → Message B) (request : Message A) where
    unfoldable pub request_id_middleware : Message B
    unfolding given_id
    request_id_middleware =
        let request_id = given_id is_text (get request_id_header request.headers) uuid in
        let response = next request in
        if is_header_value request_id
        then record response { headers = insert request_id_header request_id response.headers }
        else response

    -- Every response carries the identifier of its request, as long as that can be a header: the
    -- one that the request came with, if it is text and not empty, and otherwise a new one. Every
    -- other header, and the body, are those of the handler.
    pub request_id-carried :
        ((s : String) → is_text s ≡ true → is_header_value s ≡ true)
        → is_header_value uuid ≡ true
        → ((value : String)
            → get request_id_header request.headers ≡ some value
            → is_text value ≡ true
            → value ≢ ""
            → get request_id_header request_id_middleware.headers ≡ some value)
          × ((get request_id_header request.headers ≡ none)
                ⊎ ((value : String) × (get request_id_header request.headers ≡ some value)
                    × ((is_text value ≡ false) ⊎ (value ≡ "")))
              → get request_id_header request_id_middleware.headers ≡ some uuid)
          × ((other : String)
              → request_id_header ≢ other
              → get other request_id_middleware.headers ≡ get other (next request).headers)
          × (request_id_middleware.body ≡ (next request).body)
    unfolding request_id_middleware
    request_id-carried texts fresh =
        let given = get request_id_header request.headers in
        let request_id = given_id is_text given uuid in
        let headers = (next request).headers in
        rw (given_id_fits is_text is_header_value uuid given texts fresh) (
          λ value e text some_text.
              get-insert_self request_id_header request_id headers
              ∙ ap some (given_id-kept is_text uuid given value e text some_text),
          λ missing.
              get-insert_self request_id_header request_id headers
              ∙ ap some (given_id-new is_text uuid given missing),
          λ other h. get-insert_other request_id_header other request_id headers h,
          refl,
        )
