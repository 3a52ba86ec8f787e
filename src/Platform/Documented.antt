-- ===== src/Platform/Documented.antt =====
-- What Boost documents of the messages and algorithms that the server calls, as hypotheses.
use httpserver_cpp.Base.{
  ℕ, ◌≡◌, Bool, true, false, [], ◌∷◌, ◌++◌, Bytes, codes, ◌==◌, if◌then◌else◌,
}
use httpserver_cpp.Types.{StatusType, status_value}
use httpserver_cpp.Platform.{Platform}

-- Each occurrence of '|' becomes "%7C".
unfoldable pub escape_bars : Bytes → Bytes
escape_bars [] = []
escape_bars (c ∷ s) =
    let rest = escape_bars s in if c == b'|' then codes "%7C" ++ rest else c ∷ rest

module _ (P : Platform) where
  open P use {
    Request, Response, request_body, clear_request_body, verb_get, verb_head, verb_put,
    new_response, keep_alive, set_keep_alive, set_result, set_field, write_body, prepare_payload,
    clear_fields, clear_response_body, response_body, has_length, is_gzip, result_of, is_connection,
    is_content_encoding, is_content_length, replace_all,
  }

  -- A response without fields and body.
  abbrev pub IsFresh : Response → Type 0
  IsFresh r = (response_body r ≡ []) × (has_length r ≡ false) × (is_gzip r ≡ false)

  -- The body of the request, and the numbers of the verbs.
  pub record RequestLaws : Type 0 where
    pub request_body-clear : (r : Request) → request_body (clear_request_body r) ≡ []
    pub get_number : verb_get ≡ 2
    pub head_number : verb_head ≡ 3
    pub put_number : verb_put ≡ 5
    pub replace_all-bar : (s : Bytes) → replace_all s (codes "|") (codes "%7C") ≡ escape_bars s

  -- The `Connection` semantics of a response.
  pub record KeepAliveLaws : Type 0 where
    pub keep_alive-set : (b : Bool) (r : Response) → keep_alive (set_keep_alive b r) ≡ b
    pub keep_alive-result : (n : ℕ) (r : Response) → keep_alive (set_result n r) ≡ keep_alive r
    pub keep_alive-field :
        (n v : Bytes) (r : Response)
        → is_connection n ≡ false
        → keep_alive (set_field n v r) ≡ keep_alive r
    pub keep_alive-write : (d : Bytes) (r : Response) → keep_alive (write_body d r) ≡ keep_alive r
    pub keep_alive-prepare : (r : Response) → keep_alive (prepare_payload r) ≡ keep_alive r
    pub type_no_connection : is_connection (codes "Content-Type") ≡ false
    pub encoding_no_connection : is_connection (codes "Content-Encoding") ≡ false

  -- The body of a response.
  pub record BodyLaws : Type 0 where
    pub body-keep_alive :
        (b : Bool) (r : Response) → response_body (set_keep_alive b r) ≡ response_body r
    pub body-result : (n : ℕ) (r : Response) → response_body (set_result n r) ≡ response_body r
    pub body-field :
        (n v : Bytes) (r : Response) → response_body (set_field n v r) ≡ response_body r
    pub body-write :
        (d : Bytes) (r : Response) → response_body (write_body d r) ≡ response_body r ++ d
    pub body-prepare : (r : Response) → response_body (prepare_payload r) ≡ response_body r

  -- Its `Content-Length`, and its status, on which `prepare_payload` depends.
  pub record LengthLaws : Type 0 where
    pub length-keep_alive :
        (b : Bool) (r : Response) → has_length (set_keep_alive b r) ≡ has_length r
    pub length-result : (n : ℕ) (r : Response) → has_length (set_result n r) ≡ has_length r
    pub length-field :
        (n v : Bytes) (r : Response)
        → is_content_length n ≡ false
        → has_length (set_field n v r) ≡ has_length r
    pub length-write : (d : Bytes) (r : Response) → has_length (write_body d r) ≡ has_length r
    pub length-prepare :
        (status : StatusType) (r : Response)
        → result_of r ≡ status_value status
        → has_length (prepare_payload r) ≡ true
    pub type_no_length : is_content_length (codes "Content-Type") ≡ false
    pub encoding_no_length : is_content_length (codes "Content-Encoding") ≡ false
    pub result-set : (n : ℕ) (r : Response) → result_of (set_result n r) ≡ n
    pub result-field : (n v : Bytes) (r : Response) → result_of (set_field n v r) ≡ result_of r
    pub result-write : (d : Bytes) (r : Response) → result_of (write_body d r) ≡ result_of r

  -- Its `Content-Encoding`.
  pub record EncodingLaws : Type 0 where
    pub gzip-keep_alive : (b : Bool) (r : Response) → is_gzip (set_keep_alive b r) ≡ is_gzip r
    pub gzip-result : (n : ℕ) (r : Response) → is_gzip (set_result n r) ≡ is_gzip r
    pub gzip-set :
        (r : Response) → is_gzip (set_field (codes "Content-Encoding") (codes "gzip") r) ≡ true
    pub gzip-field :
        (n v : Bytes) (r : Response)
        → is_content_encoding n ≡ false
        → is_gzip (set_field n v r) ≡ is_gzip r
    pub gzip-write : (d : Bytes) (r : Response) → is_gzip (write_body d r) ≡ is_gzip r
    pub gzip-prepare : (r : Response) → is_gzip (prepare_payload r) ≡ is_gzip r
    pub type_no_encoding : is_content_encoding (codes "Content-Type") ≡ false

  -- A new response, and one that is cleared, has no fields and no body.
  pub record FreshLaws : Type 0 where
    pub fresh-new : IsFresh new_response
    pub fresh-clear : (r : Response) → IsFresh (clear_response_body (clear_fields r))
