-- ===== src/Session/Tests.antt =====
-- Runs of a session, and the theorems on it at concrete inputs.
use httpserver_cpp.Base.{
  ℕ, ◌≡◌, refl, true, List, [], ◌∷◌, Option, none, some, Bytes, codes, bytes_discrete, ℕ_discrete,
  arith, ◌==◌, if◌then◌else◌,
}
use httpserver_cpp.Base.Dict.{find, assign, put, compare_bytes}
use httpserver_cpp.Base.Result.{Result, ok, throws}
use httpserver_cpp.Types.{default_options, ok_status, status_value, compression_value, method_value}
use httpserver_cpp.Statistics.{zero_statistics}
use httpserver_cpp.Request.{HttpRequest, http_request}
use httpserver_cpp.Response.{HttpResponse, http_response, force_gzip, header}
use httpserver_cpp.Router.{
  Heap, empty, attach, insert_from, set_data, insert_segments, get_data, search_from,
  search_segments, starts_with_slash, has_dots, insert,
}
use httpserver_cpp.Router.Shape.{IsTree, empty-IsTree}
use httpserver_cpp.Router.Table.{registers, registers-IsTable}
use httpserver_cpp.Platform.Sample.{
  SampleRequest, SampleResponse, sample, sample_segments, sample_set, is_name, sample-RequestLaws,
  sample-FreshLaws,
}
use httpserver_cpp.Platform.Documented.{escape_bars}
use httpserver_cpp.Session.{
  State, http_session, do_close, do_read, do_write, on_write, run, destroy, compress_data,
  set_fields, encode_body, put_body, fill_response, write_response,
}
use httpserver_cpp.Session.Process.{
  Moment, has_bar, put_all, origin_target, refuse, make_request, send_all, take_body, call_handler,
  process_request, on_read,
}
use httpserver_cpp.Session.Fill.{compresses, encoded}
use httpserver_cpp.Session.Answer.{Outcome, process_request-Outcome}
use httpserver_cpp.Session.Handed.{last_value, Handed, make_request-Handed}
use httpserver_cpp.Session.Lifecycle.{
  Config, read_done, Reach, here, next, IsSequential, SendsOnce, started,
}
use httpserver_cpp.Session.Sequential.{session-IsSequential}
use httpserver_cpp.Session.Emptied.{session_emptied}
use httpserver_cpp.Session.Handled.{handled, countdown, session-handled}

unfoldable pub runs : Unit {0}
unfolding find assign put compare_bytes empty attach insert_from set_data insert_segments get_data
    search_from search_segments starts_with_slash has_dots insert registers sample_segments
    bytes_discrete ℕ_discrete sample_set is_name escape_bars http_session do_close do_read do_write
    on_write run destroy compress_data set_fields encode_body put_body fill_response write_response
    has_bar put_all origin_target refuse make_request send_all take_body call_handler
    process_request on_read compresses encoded http_request http_response force_gzip header
    status_value compression_value last_value method_value
runs = tt

-- Handler 1 echoes the body, handler 2 keeps the writer and answers later.
abbrev pub handle : ℕ → HttpRequest → List HttpResponse
unfolding runs
handle h r = if h == 1 then http_response ok_status r.body (codes "text/plain") ∷ [] else []

abbrev calls : List (Bytes × Option ℕ)
calls = (codes "/echo", some 1) ∷ (codes "/later", some 2) ∷ []

abbrev pub router : Heap ℕ
router = registers sample_segments empty calls

pub tree : IsTree router
tree = (registers-IsTable sample_segments calls empty empty-IsTree).tree

abbrev pub ask : ℕ → Bytes → Bytes → SampleRequest
ask verb target body = record {
  verb = verb;
  target = target;
  fields = (codes "a", codes "1") ∷ (codes "a", codes "2") ∷ [];
  accept_encoding = codes "gzip";
  alive = true;
  body = body;
}

abbrev pub moment : Moment
moment = record { garbage = 77; now = 5 }

abbrev pub nothing : SampleRequest
nothing = ask 0 [] []

abbrev pub new_session : State SampleRequest SampleResponse
unfolding runs
new_session = run sample default_options (http_session sample 1 nothing zero_statistics)

abbrev reads : SampleRequest → Result (State SampleRequest SampleResponse)
unfolding runs
reads request =
    let s = new_session in
    on_read sample handle default_options router moment none
      (record s { session = record (s.session) { request = request; pending = [] } })

abbrev shows : Result (State SampleRequest SampleResponse) → ℕ × Bytes × ℕ
shows (ok s) = (s.session.response.result, s.session.response.body, s.statistics.handle_request_cnt)
shows (throws e) = (0, [], 0)
shows _ = (0, [], 0)

answers :
    (shows (reads (ask 4 (codes "/echo") (codes "hi"))) ≡ (200, codes "hi", 1))
    × (shows (reads (ask 4 (codes "/other") [])) ≡ (400, codes "current url not support", 1))
    × (shows (reads (ask 6 (codes "/echo") [])) ≡ (400, codes "current method not support", 1))
    × (shows (reads (ask 3 (codes "/echo") (codes "hi"))) ≡ (200, [], 1))
unfolding runs
answers = (refl, refl, refl, refl)

pub once : SendsOnce sample handle default_options router
unfolding runs
once = λ h r. ground arith

abbrev state_or : Result (State SampleRequest SampleResponse) → State SampleRequest SampleResponse
unfolding runs
state_or (ok s) = s
state_or _ = new_session

-- A request for the handler that answers later.
abbrev pub waiting : State SampleRequest SampleResponse
unfolding runs
waiting = state_or (reads (ask 4 (codes "/later") (codes "hi")))

abbrev pub first : Config SampleRequest SampleResponse
first = started sample handle default_options router 1 nothing zero_statistics

unfoldable pub waits :
    Reach sample handle default_options router first (record { state = waiting; owed = true })
unfolding runs
waits = next here (read_done moment [] none (ask 4 (codes "/later") (codes "hi")) waiting refl refl)

session-IsSequential_example :
    IsSequential sample handle default_options router (record { state = waiting; owed = true })
unfolding runs
session-IsSequential_example =
    session-IsSequential sample handle default_options router once tree sample-RequestLaws
      sample-FreshLaws 1 nothing zero_statistics (omega arith) waits

session_emptied_example : SampleRequest.body waiting.session.request ≡ []
unfolding runs
session_emptied_example =
    session_emptied sample handle default_options router once tree sample-RequestLaws
      sample-FreshLaws 1 nothing zero_statistics (omega arith) refl waits refl

session-handled_example : handled sample handle default_options router waits ≡ countdown 1
unfolding runs waits handled
session-handled_example =
    session-handled sample handle default_options router once tree sample-RequestLaws
      sample-FreshLaws 1 nothing zero_statistics (omega arith) waits (omega arith)

abbrev pub asked : State SampleRequest SampleResponse
unfolding runs
asked = record new_session {
  session = record (new_session.session) {
    request = ask 4 (codes "/echo") (codes "hi");
    pending = [];
  };
}

process_request-Outcome_example :
    (s : State SampleRequest SampleResponse) × (process_request sample handle default_options router
        moment asked
      ≡ ok s)
    × Outcome sample handle default_options router sample-RequestLaws moment asked s
unfolding runs
process_request-Outcome_example =
    process_request-Outcome sample handle default_options router sample-RequestLaws moment asked
      tree (omega arith)

make_request-Handed_example :
    Handed sample handle default_options router sample-RequestLaws moment
      (codes "echo" ∷ [])
      asked.session
      (make_request sample handle default_options router moment (codes "echo" ∷ []) asked.session)
unfolding runs
make_request-Handed_example =
    make_request-Handed sample handle default_options router sample-RequestLaws moment
      (codes "echo" ∷ []) asked.session (omega arith)
