-- ===== src/Session/ResponseTests.antt =====
-- Responses that are filled in and written, and the theorems on them at concrete inputs.
use httpserver_cpp.Base.{◌≡◌, refl, true, false, List, [], ◌∷◌, codes, arith}
use httpserver_cpp.Types.{default_options, best_compression, ok_status}
use httpserver_cpp.Response.{HttpResponse, http_response, force_gzip, header}
use httpserver_cpp.Platform.Sample.{
  SampleResponse, fresh_response, sample, sample-KeepAliveLaws, sample-BodyLaws, sample-LengthLaws,
  sample-EncodingLaws, sample-FreshLaws,
}
use httpserver_cpp.Session.{writing, fill_response, write_response}
use httpserver_cpp.Session.Filled.{IsFilled, fill_response-IsFilled}
use httpserver_cpp.Session.Exchange.{Exchanged, written_well, write_response-Exchanged}
use httpserver_cpp.Session.Maps.{
  Shaping, sets_header, forces_gzip, sets_level, shape, IsShaped, shape-IsShaped,
}
use httpserver_cpp.Session.Tests.{runs, ask, asked}

-- A response that the handler wants compressed.
abbrev zipped : HttpResponse
unfolding runs
zipped =
    header (codes "x") (codes "y") (force_gzip (http_response ok_status (codes "hi") (codes "t")))

sent : SampleResponse
unfolding runs
sent = fill_response sample default_options (ask 2 [] []) zipped fresh_response

sent_zipped :
    (SampleResponse.alive sent ≡ true)
    × (SampleResponse.body sent ≡ codes "ziphi")
    × (SampleResponse.zipped sent ≡ true)
    × (SampleResponse.sized sent ≡ true)
unfolding runs sent
sent_zipped = (refl, refl, refl, refl)

-- An empty body has no length.
sent_bodyless :
    SampleResponse.sized (
      fill_response sample default_options
        (ask 2 [] [])
        (http_response ok_status [] (codes "t"))
        fresh_response)
    ≡ false
unfolding runs
sent_bodyless = refl

fill_response-IsFilled_example :
    IsFilled sample default_options
      (ask 2 [] [])
      zipped
      (fill_response sample default_options (ask 2 [] []) zipped fresh_response)
unfolding runs
fill_response-IsFilled_example =
    fill_response-IsFilled sample default_options (ask 2 [] []) zipped fresh_response
      sample-KeepAliveLaws sample-BodyLaws sample-EncodingLaws sample-LengthLaws (refl, refl, refl)
      (refl, tt) (refl, tt) (refl, tt)

abbrev shaping : List Shaping
shaping =
    sets_header (codes "b") (codes "1")
    ∷ forces_gzip
    ∷ sets_header (codes "a") (codes "2")
    ∷ sets_header (codes "b") (codes "3")
    ∷ sets_level best_compression
    ∷ []

shape-IsShaped_example :
    IsShaped ok_status
      (codes "hi")
      (codes "t")
      shaping
      (shape shaping (http_response ok_status (codes "hi") (codes "t")))
shape-IsShaped_example = shape-IsShaped ok_status (codes "hi") (codes "t") shaping

write_response-Exchanged_example :
    ((write_response sample default_options zipped asked).session.pending ≡ writing true ∷ [])
    × Exchanged sample default_options true asked
        (written_well sample default_options (write_response sample default_options zipped asked))
unfolding runs
write_response-Exchanged_example =
    write_response-Exchanged sample default_options sample-KeepAliveLaws sample-FreshLaws zipped
      asked (refl, tt) refl refl (omega arith)
