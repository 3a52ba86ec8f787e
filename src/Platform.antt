-- ===== src/Platform.antt =====
-- What the server takes from Boost, as parameters: messages of Boost.Beast, URLs of Boost.URL, the
-- compressor of Boost.Iostreams and two string algorithms. Documented.antt holds what the theorems
-- rely on.
pub mod Documented
pub mod Sample
use httpserver_cpp.Base.{ℕ, Bool, Option, List, Bytes}
use httpserver_cpp.Base.Int.{ℤ}

pub record Platform : Type 1 where
  -- `beast::http::request<dynamic_body>`
  pub Request : Type 0
  pub verb : Request → ℕ
  pub target : Request → Bytes
  pub fields : Request → List (Bytes × Bytes)
  pub accept_encoding : Request → Bytes
  pub wants_keep_alive : Request → Bool
  pub request_body : Request → Bytes
  pub clear_request_body : Request → Request
  -- the numbers of `beast::http::verb`
  pub verb_get : ℕ
  pub verb_head : ℕ
  pub verb_put : ℕ
  -- `beast::http::response<dynamic_body>`
  pub Response : Type 0
  pub new_response : Response
  pub keep_alive : Response → Bool
  pub set_keep_alive : Bool → Response → Response
  pub set_result : ℕ → Response → Response
  pub set_field : Bytes → Bytes → Response → Response
  pub write_body : Bytes → Response → Response
  pub prepare_payload : Response → Response
  pub clear_fields : Response → Response
  pub clear_response_body : Response → Response
  -- what a client sees of a response
  pub response_body : Response → Bytes
  pub has_length : Response → Bool
  pub is_gzip : Response → Bool
  pub result_of : Response → ℕ
  -- whether a field's name is that of `Connection`, `Content-Encoding`, `Content-Length`
  pub is_connection : Bytes → Bool
  pub is_content_encoding : Bytes → Bool
  pub is_content_length : Bytes → Bool
  -- Boost.URL: `url_view`, `parse_origin_form` and `segments_view(path)`; `none` is an error
  pub UrlView : Type 0
  pub parse_origin_form : Bytes → Option UrlView
  pub url_segments : UrlView → List Bytes
  pub url_params : UrlView → List (Bytes × Bytes)
  pub encoded_params : UrlView → List (Bytes × Bytes)
  pub segments_view : Bytes → Option (List Bytes)
  -- `gzip_compressor`, at a level
  pub gzip : ℤ → Bytes → Bytes
  -- `boost::replace_all`, `boost::icontains`
  pub replace_all : Bytes → Bytes → Bytes → Bytes
  pub icontains : Bytes → Bytes → Bool
