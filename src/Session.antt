-- ===== src/Session.antt =====
-- src/http_session.h and src/http_session.cpp: one connection, from request to response.
pub mod Process
pub mod Fill
pub mod Filled
pub mod Sends
pub mod Answer
pub mod Handed
pub mod Lifecycle
pub mod Sequential
pub mod Emptied
pub mod Handled
pub mod Maps
pub mod Exchange
pub mod Jobs
pub mod Threads
pub mod Lines
pub mod Tests
mod ResponseTests
mod LineTests
pub mod ThreadTests
use httpserver_cpp.Base.{
  ℕ, ◌<◌, ◌+◌, ◌%◌, ◌^◌, ◌≡◌, Bool, true, false, not, ◌&&◌, ◌||◌, List, [], ◌∷◌, ◌++◌, Option, none,
  some, ltb, ◌==◌, if◌then◌else◌, length, Bytes, codes,
}
use httpserver_cpp.Base.Dict.{Dict, put}
use httpserver_cpp.Types.{HttpServerOptions, status_value, CompressionLevel, compression_value}
use httpserver_cpp.Statistics.{HttpStatisticsInternal, u32_inc, u32_dec, u64_inc}
use httpserver_cpp.Response.{HttpResponse}
use httpserver_cpp.Platform.{Platform}

-- `stream_.expires_after(seconds)` and `stream_.expires_never()`
pub data Expiry : Type 0 where
  after_seconds : ℕ → Expiry
  never : Expiry

-- The errors that the completion handlers tell apart.
pub data ErrorCode : Type 0 where
  end_of_stream timeout other_error : ErrorCode

-- An asynchronous operation that has been started; a write holds the `keep_alive` bound to it.
pub data Operation : Type 0 where
  reading : Operation
  writing : Bool → Operation

pub record HttpSession (Request Response : Type 0) : Type 0 where
  pub id : ℕ
  pub current_request_id : ℕ
  pub request : Request
  pub response : Response
  -- `stream_`: whether its socket is open, its expiry, and the operations started on it
  pub is_open : Bool
  pub expiry : Expiry
  pub pending : List Operation

-- A session and the statistics that it refers to.
pub record State (Request Response : Type 0) : Type 0 where
  pub statistics : HttpStatisticsInternal
  pub session : HttpSession Request Response

module _ (P : Platform) where
  open P use {
    Request, Response, new_response, wants_keep_alive, accept_encoding, verb, verb_head, keep_alive,
    set_keep_alive, set_result, set_field, write_body, prepare_payload, clear_fields,
    clear_response_body, gzip, icontains,
  }

  -- `id` is the new value of `s_id`; `request` the empty request that the constructor makes.
  unfoldable pub http_session : ℕ → Request → HttpStatisticsInternal → State Request Response
  http_session id request st = record {
    statistics = record st { session_cnt = u32_inc st.session_cnt };
    session = record {
      id = id;
      current_request_id = 0;
      request = request;
      response = new_response;
      is_open = true;
      expiry = never;
      pending = [];
    };
  }

  unfoldable pub do_close : State Request Response → State Request Response
  do_close s = record s {
    session = if s.session.is_open then record (s.session) { is_open = false } else s.session;
  }

  -- `~HttpSession`
  unfoldable pub destroy : State Request Response → State Request Response
  unfolding do_close
  destroy s = do_close (record s {
    statistics = record (s.statistics) { session_cnt = u32_dec s.statistics.session_cnt };
  })

  -- `if (t != 0) stream_.expires_after(t) else stream_.expires_never()`
  abbrev pub expires : ℕ → Expiry
  expires t = if t == 0 then never else after_seconds t

  unfoldable pub do_read : HttpServerOptions → State Request Response → State Request Response
  do_read opts s = record s {
    session = record (s.session) {
      current_request_id = u64_inc s.session.current_request_id;
      expiry = expires opts.read_time_out;
      pending = reading ∷ s.session.pending;
    };
  }

  -- `run`: the dispatched handler is `doRead`.
  unfoldable pub run : HttpServerOptions → State Request Response → State Request Response
  unfolding do_read
  run opts s = do_read opts s

  unfoldable pub do_write : HttpServerOptions → State Request Response → State Request Response
  do_write opts s = record s {
    session = record (s.session) {
      expiry = expires opts.write_time_out;
      pending = writing (keep_alive s.session.response) ∷ s.session.pending;
    };
  }

  unfoldable pub on_write :
      HttpServerOptions → Bool → Option ErrorCode → State Request Response → State Request Response
  on_write opts ka (some timeout) s =
      let st = s.statistics in
      do_close
        (record s { statistics = record st { write_timeout_cnt = u64_inc st.write_timeout_cnt } })
  on_write opts ka (some _) s =
      let st = s.statistics in
      do_close (record s { statistics = record st { write_fail_cnt = u64_inc st.write_fail_cnt } })
  on_write opts ka none s =
      let st = s.statistics in
      let counted = record st { write_success_cnt = u64_inc st.write_success_cnt } in
      if ka
      then do_read opts (record s {
        statistics = counted;
        session = record (s.session) {
          response = clear_response_body (clear_fields s.session.response);
        };
      })
      else do_close (record s { statistics = counted })

  unfoldable pub compress_data : CompressionLevel → Bytes → Bytes
  compress_data level uncompressed_data = gzip (compression_value level) uncompressed_data

  -- `for (auto& p : headers) response_.set(p.first, p.second)`
  unfoldable pub set_fields : Dict Bytes → Response → Response
  set_fields [] r = r
  set_fields ((name, value) ∷ more) r = set_fields more (set_field name value r)

  -- The compression of `writeResponse`: the response and the body.
  unfoldable pub encode_body :
      HttpServerOptions → Request → HttpResponse → Response → Response × Bytes
  encode_body opts request rsp r =
      let packed : Response × Bytes = (
        set_field (codes "Content-Encoding") (codes "gzip") r,
        compress_data rsp.compression_level rsp.body,
      ) in
      if rsp.force_gzip
      then packed
      else (if ltb 500 (length rsp.body)
            && (opts.auto_gzip
                && (icontains (accept_encoding request) (codes "gzip")
                    || icontains (accept_encoding request) (codes "*")))
          then packed
          else (r, rsp.body))

  -- The last part of `writeResponse`.
  unfoldable pub put_body : Request → Response × Bytes → Response
  put_body request (r, body) =
      if ltb 0 (length body)
      then prepare_payload (if verb request == verb_head then r else write_body body r)
      else r

  -- What `writeResponse` makes of `response_`.
  unfoldable pub fill_response : HttpServerOptions → Request → HttpResponse → Response → Response
  fill_response opts request rsp r =
      let ka = if rsp.force_disable_keep_alive then false else wants_keep_alive request in
      let r₁ = set_result (status_value rsp.status) (set_keep_alive ka r) in
      let r₂ = set_fields rsp.headers (set_field (codes "Content-Type") rsp.content_type r₁) in
      put_body request (encode_body opts request rsp r₂)

  unfoldable pub write_response :
      HttpServerOptions → HttpResponse → State Request Response → State Request Response
  write_response opts rsp s = do_write opts (record s {
    session = record (s.session) {
      response = fill_response opts s.session.request rsp s.session.response;
    };
  })
