-- ===== src/Session/Fill.antt =====
-- src/http_session.cpp: what `writeResponse` makes of a response, and what `doWrite` is given.
use httpserver_cpp.Base.{
  ℕ, ◌≡◌, refl, ◌∙◌, Bool, false, not, ◌&&◌, ◌||◌, [], ◌∷◌, length, nil_of_length, Bytes, codes,
  ◌==◌, ltb, if◌then◌else◌, All, arith,
}
use httpserver_cpp.Base.Dict.{Dict}
use httpserver_cpp.Types.{HttpServerOptions, status_value}
use httpserver_cpp.Response.{HttpResponse}
use httpserver_cpp.Platform.{Platform}
use httpserver_cpp.Platform.Documented.{KeepAliveLaws, BodyLaws, LengthLaws, EncodingLaws}
use httpserver_cpp.Session.{set_fields, encode_body, put_body, fill_response, compress_data}

module _ (P : Platform) where
  open P use {
    Request, Response, verb, verb_head, wants_keep_alive, accept_encoding, keep_alive, set_field,
    response_body, has_length, is_gzip, is_connection, is_content_encoding, is_content_length,
    icontains, set_result, set_keep_alive, result_of, prepare_payload, write_body,
  }

  -- No header of the handler's has a name of the given kind.
  abbrev pub Avoids : (Bytes → Bool) → Dict Bytes → Type 0
  Avoids kind headers = All (λ h. kind h.0 ≡ false) headers

  -- What is left alone by `set_field` on names outside a kind is left alone by the loop.
  set_fields_keeps :
      {A : Type 0} (view : Response → A) (kind : Bytes → Bool)
      → ((n v : Bytes) (r : Response) → kind n ≡ false → view (set_field n v r) ≡ view r)
      → (headers : Dict Bytes) (r : Response) → Avoids kind headers
      → view (set_fields P headers r) ≡ view r
  unfolding set_fields
  set_fields_keeps view kind law [] r a = refl
  set_fields_keeps view kind law ((n, v) ∷ more) r (a, rest) =
      set_fields_keeps view kind law more (set_field n v r) rest ∙ law n v r a

  Avoids-none : (headers : Dict Bytes) → Avoids (λ _. false) headers
  Avoids-none [] = tt
  Avoids-none (h ∷ more) = (refl, Avoids-none more)

  -- The compression rule: forced, or a body over 500 bytes that the options and the client allow.
  unfoldable pub compresses : HttpServerOptions → Request → HttpResponse → Bool
  compresses opts request rsp =
      rsp.force_gzip
      || (ltb 500 (length rsp.body)
          && (opts.auto_gzip
              && (icontains (accept_encoding request) (codes "gzip")
                  || icontains (accept_encoding request) (codes "*"))))

  -- The body that is to be sent.
  unfoldable pub encoded : HttpServerOptions → Request → HttpResponse → Bytes
  encoded opts request rsp =
      if compresses opts request rsp
      then compress_data P rsp.compression_level rsp.body
      else rsp.body

  encode_body_lem :
      (opts : HttpServerOptions) (request : Request) (rsp : HttpResponse) (r : Response)
      → encode_body P opts request rsp r ≡ (
        (if compresses opts request rsp
            then set_field (codes "Content-Encoding") (codes "gzip") r
            else r),
        encoded opts request rsp,
      )
  unfolding encode_body compresses encoded
  encode_body_lem opts request rsp r = ground arith

  module _ (opts : HttpServerOptions) (request : Request) (rsp : HttpResponse) (r : Response) where
    -- The response when all header fields but `Content-Encoding` are set.
    abbrev with_fields : Response
    with_fields = set_fields P rsp.headers (
        set_field (codes "Content-Type") rsp.content_type (
          set_result (status_value rsp.status) (
            set_keep_alive
              (if rsp.force_disable_keep_alive then false else wants_keep_alive request) r)))

    -- What the four setters before leave alone.
    fields_keep :
        {A : Type 0} (view : Response → A) (kind : Bytes → Bool)
        → ((n v : Bytes) (q : Response) → kind n ≡ false → view (set_field n v q) ≡ view q)
        → ((n : ℕ) (q : Response) → view (set_result n q) ≡ view q)
        → ((b : Bool) (q : Response) → view (set_keep_alive b q) ≡ view q)
        → kind (codes "Content-Type") ≡ false
        → Avoids kind rsp.headers
        → view with_fields ≡ view r
    fields_keep view kind field result keep type avoids =
        set_fields_keeps view kind field rsp.headers _ avoids
        ∙ field (codes "Content-Type") rsp.content_type _ type
        ∙ result (status_value rsp.status) _
        ∙ keep _ r

    fields_result : LengthLaws P → result_of with_fields ≡ status_value rsp.status
    fields_result l =
        set_fields_keeps result_of (λ _. false) (λ n v q _. l.result-field n v q) rsp.headers _
          (Avoids-none rsp.headers)
        ∙ l.result-field (codes "Content-Type") rsp.content_type _
        ∙ l.result-set (status_value rsp.status) _

    abbrev with_encoding : Response
    with_encoding =
        if compresses opts request rsp
        then set_field (codes "Content-Encoding") (codes "gzip") with_fields
        else with_fields

    fill_response_lem :
        fill_response P opts request rsp r
        ≡ put_body P request (with_encoding, encoded opts request rsp)
    unfolding fill_response
    fill_response_lem = rw (encode_body_lem opts request rsp with_fields)

    -- If no header of the handler's is `Connection`: the response keeps the connection alive exactly
    -- if the request does and the handler does not forbid it.
    pub fill_response-keep_alive :
        KeepAliveLaws P
        → Avoids is_connection rsp.headers
        → keep_alive (fill_response P opts request rsp r)
          ≡ not rsp.force_disable_keep_alive && wants_keep_alive request
    unfolding put_body
    fill_response-keep_alive k avoids = rw fill_response_lem (
        ground (
          arith,
          k.keep_alive-prepare with_encoding,
          k.keep_alive-prepare (write_body (encoded opts request rsp) with_encoding),
          k.keep_alive-write (encoded opts request rsp) with_encoding,
          fields_alive,
          k.keep_alive-field (codes "Content-Encoding") (codes "gzip") with_fields
              k.encoding_no_connection,
        ))
      where
        start : Response
        start = set_result (status_value rsp.status) (
            set_keep_alive
              (if rsp.force_disable_keep_alive then false else wants_keep_alive request) r)

        fields_alive :
            keep_alive with_fields
            ≡ (if rsp.force_disable_keep_alive then false else wants_keep_alive request)
        fields_alive =
            set_fields_keeps keep_alive is_connection k.keep_alive-field rsp.headers _ avoids
            ∙ k.keep_alive-field (codes "Content-Type") rsp.content_type start k.type_no_connection
            ∙ k.keep_alive-result (status_value rsp.status) _
            ∙ k.keep_alive-set _ r

    -- Into a response without a body, `writeResponse` puts none for `HEAD`, and else the handler's
    -- body, compressed exactly if it is forced, or if the body is over 500 bytes and both the options
    -- and the client allow it.
    pub fill_response-body :
        BodyLaws P
        → response_body r ≡ []
        → response_body (fill_response P opts request rsp r)
          ≡ (if verb request == verb_head then [] else encoded opts request rsp)
    unfolding put_body
    fill_response-body b fresh = rw fill_response_lem (
        ground (
          arith,
          b.body-prepare with_encoding,
          b.body-prepare (write_body (encoded opts request rsp) with_encoding),
          b.body-write (encoded opts request rsp) with_encoding,
          b.body-field (codes "Content-Encoding") (codes "gzip") with_fields,
          fields_keep response_body (λ _. false) (λ n v q _. b.body-field n v q) b.body-result
              b.body-keep_alive refl (Avoids-none rsp.headers),
          nil_of_length (encoded opts request rsp),
        ))

    -- A response that does not say gzip, and that gets no `Content-Encoding` from the handler's
    -- headers, says gzip exactly if the handler's body is compressed.
    pub fill_response-gzip :
        EncodingLaws P
        → is_gzip r ≡ false
        → Avoids is_content_encoding rsp.headers
        → is_gzip (fill_response P opts request rsp r) ≡ compresses opts request rsp
    unfolding put_body
    fill_response-gzip g fresh avoids = rw fill_response_lem (
        ground (
          arith,
          g.gzip-prepare with_encoding,
          g.gzip-prepare (write_body (encoded opts request rsp) with_encoding),
          g.gzip-write (encoded opts request rsp) with_encoding,
          g.gzip-set with_fields,
          fields_keep is_gzip is_content_encoding g.gzip-field g.gzip-result g.gzip-keep_alive
              g.type_no_encoding avoids,
        ))

    -- A response that has no length, and that gets no `Content-Length` from the handler's headers,
    -- has a length exactly if the body to be sent is not empty.
    pub fill_response-length :
        LengthLaws P
        → has_length r ≡ false
        → Avoids is_content_length rsp.headers
        → has_length (fill_response P opts request rsp r)
          ≡ ltb 0 (length (encoded opts request rsp))
    unfolding put_body
    fill_response-length l fresh avoids = rw fill_response_lem (
        ground (
          arith,
          l.length-prepare rsp.status with_encoding,
          l.length-prepare rsp.status (write_body (encoded opts request rsp) with_encoding),
          l.result-write (encoded opts request rsp) with_encoding,
          l.result-field (codes "Content-Encoding") (codes "gzip") with_fields,
          fields_result l,
          l.length-field (codes "Content-Encoding") (codes "gzip") with_fields l.encoding_no_length,
          fields_keep has_length is_content_length l.length-field l.length-result
              l.length-keep_alive l.type_no_length avoids,
        ))
