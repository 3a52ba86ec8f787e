-- ===== src/Demo/Tests.antt =====
-- The demo on a concrete platform, network and log.
use httpserver_cpp.Base.{ℕ, ◌≡◌, refl, true, false, [], ◌∷◌, ◌++◌, none, some, Bytes, codes}
use httpserver_cpp.Base.Dict.{put, compare_bytes}
use httpserver_cpp.Base.Result.{ok}
use httpserver_cpp.Statistics.{zero_statistics}
use httpserver_cpp.Request.{http_request, method, body, params, headers}
use httpserver_cpp.Log.{info, Spdlog, Log, set_log_level}
use httpserver_cpp.Platform.Sample.{SampleRequest, SampleResponse, sample, sample_segments}
use httpserver_cpp.Session.{State, http_session, run as run_session, do_read}
use httpserver_cpp.Session.Process.{Moment, process_request, put_all}
use httpserver_cpp.Server.{HttpServerImpl, Network}
use httpserver_cpp.Demo.{
  HelloHandler, hello, hello_body, server_opts, main, digits, decimal, line, lines,
}
use httpserver_cpp.Demo.Replies.{Replies, demo_reply, demo-Replies}

-- A log that keeps its level only.
abbrev level_log : Spdlog
level_log = record {
  Logger = ℕ;
  makes_sink = λ _. true;
  makes_pool = λ q n. true;
  new_logger = λ name sinks. 0;
  async_logger = λ name sinks. 0;
  set_pattern = λ p x. x;
  set_level = λ n x. n;
  get_level = λ x. x;
  log = λ n m x. x;
  output = λ x. [];
}

abbrev new_log : Log ℕ
new_log = record { init_flag = false; pattern_set = false; pool = none; logger = 0 }

abbrev quiet : Network
quiet = record {
  makes_address = λ _. true;
  open_error = none;
  reuse_error = none;
  linger_error = none;
  bind_error = none;
  listen_error = none;
}

abbrev moment : Moment
moment = record { garbage = 77; now = 5 }

abbrev post : SampleRequest
post = record {
  verb = 4;
  target = codes "/hello/world";
  fields = (codes "b", codes "1") ∷ (codes "a", codes "2") ∷ [];
  accept_encoding = [];
  alive = true;
  body = codes "hi";
}

abbrev asked : State SampleRequest SampleResponse
unfolding http_session run_session do_read
asked =
    let s = run_session sample server_opts (http_session sample 1 post zero_statistics) in
    record s { session = record (s.session) { pending = [] } }

demo-Replies_example :
    (t : HttpServerImpl HelloHandler) × (main level_log sample_segments 0 quiet new_log
      ≡ (set_log_level level_log info new_log, ok (record { server_impl = some t }, none)))
    × (t.is_open ≡ true)
    × (s : State SampleRequest SampleResponse) × (process_request sample hello t.opts t.router
          moment asked
        ≡ ok s)
    × Replies sample (demo_reply sample moment asked.session) asked s
unfolding sample_segments
demo-Replies_example =
    demo-Replies sample level_log 0 quiet new_log moment asked refl
      (record { makes = refl; opens = refl; quiet = refl })

abbrev newline : Bytes
newline = b'\n' ∷ []

-- The headers are told in the order of their names.
hello_text :
    hello_body (record (http_request 77 1 1) {
      method = 4;
      headers = put_all ((codes "b", codes "1") ∷ (codes "a", codes "2") ∷ []) [];
      body = codes "hi";
    })
    ≡ codes "receive method: 4"
      ++ newline
      ++ codes "receive body: hi"
      ++ newline
      ++ codes "receive header: a:2"
      ++ newline
      ++ codes "receive header: b:1"
      ++ newline
unfolding hello_body method body params headers digits decimal line lines http_request put_all put
    compare_bytes
hello_text = refl
