-- ===== src/Platform/Sample.antt =====
-- A small platform that meets the documented laws: the tests and the witnesses run on it.
use Prim.Native.String.{String}
use httpserver_cpp.Base.{
  ℕ, refl, Bool, true, false, Option, some, List, [], ◌∷◌, ◌++◌, ite, ◌==◌, if◌then◌else◌, Bytes,
  codes, bytes_discrete,
}
use httpserver_cpp.Platform.{Platform}
use httpserver_cpp.Platform.Documented.{
  escape_bars, RequestLaws, KeepAliveLaws, BodyLaws, LengthLaws, EncodingLaws, FreshLaws,
}

pub record SampleRequest : Type 0 where
  pub verb : ℕ
  pub target : Bytes
  pub fields : List (Bytes × Bytes)
  pub accept_encoding : Bytes
  pub alive : Bool
  pub body : Bytes

pub record SampleResponse : Type 0 where
  pub alive : Bool
  pub result : ℕ
  pub zipped : Bool
  pub sized : Bool
  pub body : Bytes

unfoldable pub is_name : String → Bytes → Bool
unfolding bytes_discrete
is_name name n = ite (bytes_discrete n (codes name)) true false

abbrev push_byte : ℕ → List Bytes → List Bytes
push_byte c [] = (c ∷ []) ∷ []
push_byte c (s ∷ more) = (c ∷ s) ∷ more

split_slash : Bytes → List Bytes
split_slash [] = [] ∷ []
split_slash (c ∷ s) = let rest = split_slash s in if c == b'/' then [] ∷ rest else push_byte c rest

-- The segments of a path: none for "/", and an empty one after a slash at the end.
unfoldable pub sample_segments : Bytes → Option (List Bytes)
unfolding split_slash
sample_segments [] = some []
sample_segments (c ∷ []) = some []
sample_segments (c ∷ d ∷ s) = some (split_slash (d ∷ s))

unfoldable pub sample_set : Bytes → Bytes → SampleResponse → SampleResponse
unfolding is_name
sample_set n v r = record r {
  alive = if is_name "Connection" n then is_name "keep-alive" v else r.alive;
  zipped = if is_name "Content-Encoding" n then is_name "gzip" v else r.zipped;
  sized = if is_name "Content-Length" n then true else r.sized;
}

abbrev pub fresh_response : SampleResponse
fresh_response = record { alive = true; result = 200; zipped = false; sized = false; body = [] }

abbrev pub sample : Platform
sample = record {
  Request = SampleRequest;
  verb = λ r. r.verb;
  target = λ r. r.target;
  fields = λ r. r.fields;
  accept_encoding = λ r. r.accept_encoding;
  wants_keep_alive = λ r. r.alive;
  request_body = λ r. r.body;
  clear_request_body = λ r. record r { body = [] };
  verb_get = 2;
  verb_head = 3;
  verb_put = 5;
  Response = SampleResponse;
  new_response = fresh_response;
  keep_alive = λ r. r.alive;
  set_keep_alive = λ b r. record r { alive = b };
  set_result = λ n r. record r { result = n };
  set_field = sample_set;
  write_body = λ d r. record r { body = r.body ++ d };
  prepare_payload = λ r. record r { sized = true };
  clear_fields = λ r. record r { alive = true; zipped = false; sized = false };
  clear_response_body = λ r. record r { body = [] };
  response_body = λ r. r.body;
  has_length = λ r. r.sized;
  is_gzip = λ r. r.zipped;
  result_of = λ r. r.result;
  is_connection = is_name "Connection";
  is_content_encoding = is_name "Content-Encoding";
  is_content_length = is_name "Content-Length";
  UrlView = List Bytes;
  parse_origin_form = sample_segments;
  url_segments = λ u. u;
  url_params = λ u. [];
  encoded_params = λ u. [];
  segments_view = sample_segments;
  gzip = λ level d. codes "zip" ++ d;
  replace_all = λ s from to. escape_bars s;
  icontains = λ s t. is_name "gzip" s;
}

pub sample-RequestLaws : RequestLaws sample
sample-RequestLaws = record {
  request_body-clear = λ r. refl;
  get_number = refl;
  head_number = refl;
  put_number = refl;
  replace_all-bar = λ s. refl;
}

pub sample-KeepAliveLaws : KeepAliveLaws sample
unfolding is_name sample_set
sample-KeepAliveLaws = record {
  keep_alive-set = λ b r. refl;
  keep_alive-result = λ n r. refl;
  keep_alive-field = λ n v r e. rw e;
  keep_alive-write = λ d r. refl;
  keep_alive-prepare = λ r. refl;
  type_no_connection = refl;
  encoding_no_connection = refl;
}

pub sample-BodyLaws : BodyLaws sample
unfolding sample_set
sample-BodyLaws = record {
  body-keep_alive = λ b r. refl;
  body-result = λ n r. refl;
  body-field = λ n v r. refl;
  body-write = λ d r. refl;
  body-prepare = λ r. refl;
}

pub sample-LengthLaws : LengthLaws sample
unfolding is_name sample_set
sample-LengthLaws = record {
  length-keep_alive = λ b r. refl;
  length-result = λ n r. refl;
  length-field = λ n v r e. rw e;
  length-write = λ d r. refl;
  length-prepare = λ status r e. refl;
  type_no_length = refl;
  encoding_no_length = refl;
  result-set = λ n r. refl;
  result-field = λ n v r. refl;
  result-write = λ d r. refl;
}

pub sample-EncodingLaws : EncodingLaws sample
unfolding is_name sample_set
sample-EncodingLaws = record {
  gzip-keep_alive = λ b r. refl;
  gzip-result = λ n r. refl;
  gzip-set = λ r. refl;
  gzip-field = λ n v r e. rw e;
  gzip-write = λ d r. refl;
  gzip-prepare = λ r. refl;
  type_no_encoding = refl;
}

pub sample-FreshLaws : FreshLaws sample
sample-FreshLaws = record { fresh-new = (refl, refl, refl); fresh-clear = λ r. (refl, refl, refl) }
