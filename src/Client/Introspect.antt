-- ===== src/Client/Introspect.antt =====
-- The dashboard of neutun/src/introspect: the copies of each stream's traffic, as they are kept,
-- shown and replayed. The pages' templates and the socket that it listens on are not modelled.
pub mod Inspector
pub mod Copies
pub mod Replay
pub mod Elapsed
pub mod Pages
use neutun.Base.{
  ℕ, ◌-◌, ◌/◌, Text, ◌==◌, eqb, ltb, if◌then◌else◌, Bool, true, false, not, ◌&&◌, Option, none,
  some, String, codes, List, [], ◌∷◌, ◌++◌, map, drop,
}
use mathlib.Core.Option
use neutun.Table
use neutun.Table.{Table}
use neutun.Utf8.{from_utf8}
use neutun.Str.{Unicode, to_uppercase}
use neutun.Str.Numbers.{show}
use neutun.Channel.{Sender, unbounded, put, send}
use neutun.Protocol.{StreamId}
use neutun.Server.Config.{unwrap_or}
use neutun.Client.Tunnel.{payload, Client, Attempt, setup_new_stream}

-- `NaiveDateTime`, in nanoseconds.
abbrev pub Time : Type 0
Time = ℕ

pub record Request : Type 0 where
  pub id : Text
  pub status : ℕ
  pub is_replay : Bool
  pub path : Option Text
  pub method : Option Text
  pub headers : List (Text × Text)
  pub body_data : Text
  pub response_headers : List (Text × Text)
  pub response_data : Text
  pub started : Time
  pub completed : Time
  pub entire_request : Text

abbrev signed : Bool → ℕ → Text
signed negative n = if negative && not (eqb n 0) then codes "-" ++ show n else show n

-- The clock is the local time, which may go backwards.
unfoldable pub elapsed : Request → Text
elapsed r =
    let negative = ltb r.completed r.started in
    let nanos = if negative then r.started - r.completed else r.completed - r.started in
    if eqb (nanos / 1000000000) 0
    then signed negative (nanos / 1000000) ++ codes "ms"
    else signed negative (nanos / 1000000000) ++ codes "s"

-- What `httparse` leaves in the two records, and the length of the head if that is complete. The
-- headers are the whole array, its empty places included.
pub record HttpRequest : Type 0 where
  pub complete : Option ℕ
  pub path : Option Text
  pub method : Option Text
  pub headers : List (Text × Text)

pub record HttpResponse : Type 0 where
  pub complete : Option ℕ
  pub code : Option ℕ
  pub headers : List (Text × Text)

pub record HttpParse : Type 0 where
  pub request : Text → HttpRequest
  pub response : Text → HttpResponse

-- The headers that are not empty places of the array.
unfoldable pub stored_headers : List (Text × Text) → List (Text × Text)
stored_headers [] = []
stored_headers ((name, value) ∷ rest) =
    let kept = stored_headers rest in
    if name == [] && value == []
    then kept
    else (name, unwrap_or (from_utf8 value) (codes "???")) ∷ kept

-- The line for the console: the status, whether it is green, the method and the path.
unfoldable pub log : Unicode → HttpRequest → HttpResponse → Text × Bool × Text × Text
log u request response = (
  unwrap_or (Option.map show response.code) (codes "???"),
  unwrap_or (Option.map (λ c. not (ltb c 200) && ltb c 300) response.code) false,
  to_uppercase u (unwrap_or request.method (codes "????")),
  unwrap_or request.path [],
)

-- What a channel yields until it is closed, all in one.
unfoldable pub extend : Text → List Text → Text
extend collected [] = collected
extend collected (next ∷ rest) = extend (collected ++ next) rest

module _ (http : HttpParse) where
  unfoldable pub stored_request : Text → Time → Time → Text → Text → ℕ → Request
  unfolding stored_headers
  stored_request id started completed collected_request collected_response parts_len =
      let request = http.request collected_request in
      let response = http.response collected_response in
      record {
        id = id;
        status = unwrap_or response.code 0;
        is_replay = false;
        path = request.path;
        method = request.method;
        headers = stored_headers request.headers;
        body_data = drop parts_len collected_request;
        response_headers = stored_headers response.headers;
        response_data = drop (unwrap_or response.complete 0) collected_response;
        started = started;
        completed = completed;
        entire_request = collected_request;
      }

  store_complete : Option ℕ → Text → Time → Time → Text → Text → Table Request → Table Request
  unfolding stored_request
  store_complete none id started completed request response requests = requests
  store_complete (some parts_len) id started completed request response requests =
      Table.insert id (stored_request id started completed request response parts_len) requests

  -- The task of `introspect_stream`, from the pieces on its two channels until they are closed. A
  -- request without a complete head is not kept.
  unfoldable pub collect_stream :
      Text → Time → Time → List Text → List Text → Table Request → Table Request
  unfolding store_complete extend
  collect_stream id started completed request_rx response_rx requests =
      let collected_request = extend [] request_rx in
      let collected_response = extend [] response_rx in
      store_complete (http.request collected_request).complete id started completed
        collected_request collected_response requests

-- A stable sort by `b.completed.cmp(&a.completed)`.
unfoldable pub insert_by_completed : Request → List Request → List Request
insert_by_completed r [] = r ∷ []
insert_by_completed r (q ∷ qs) =
    if ltb r.completed q.completed then q ∷ insert_by_completed r qs else r ∷ q ∷ qs

unfoldable pub sort_by_completed : List Request → List Request
unfolding insert_by_completed
sort_by_completed [] = []
sort_by_completed (r ∷ rs) = insert_by_completed r (sort_by_completed rs)

unfoldable pub inspector : Table Request → List Request
inspector requests = sort_by_completed (Table.values requests)

pub data DataType : Type 0 where
  json unknown : DataType

pub record BodyData : Type 0 where
  pub data_type : DataType
  pub content : Option Text
  pub raw : Text

pub record InspectorDetail : Type 0 where
  pub request : Request
  pub incoming : BodyData
  pub response : BodyData

-- `to_json` is `serde_json`: a text that is a JSON value, and what that is written as again.
module _ (to_json : Text → Option (Option Text)) where
  body_of : Option (Option Text) → Text → BodyData
  body_of none raw = record { data_type = unknown; content = none; raw = raw }
  body_of (some content) raw = record { data_type = json; content = content; raw = raw }

  unfoldable pub get_body_data : Text → BodyData
  unfolding body_of
  get_body_data input =
      body_of (to_json input) (unwrap_or (from_utf8 input) (codes "No UTF-8 Data"))

  -- `none` is the rejection as not found.
  unfoldable pub request_detail : Text → Table Request → Option InspectorDetail
  request_detail rid requests =
      Option.map
        (λ r. record {
          request = r;
          incoming = get_body_data r.body_data;
          response = get_body_data r.response_data;
        })
        (Table.get rid requests)

-- The answer of a replay: a redirection to the list of requests, or the rejection as not found.
pub data Reply : Type 0 where
  redirect_home not_found : Reply

unfoldable pub replay_to : Option Sender → Text → Client → Reply × Client
replay_to none entire_request s = (not_found, s)
replay_to (some tx) entire_request s =
    (redirect_home, record s { streams = (send tx (payload entire_request) s.streams).1 })

unfoldable pub replay :
    Option Request → Bool → Attempt → Sender → Sender → StreamId → Client → Reply × Client
unfolding replay_to
replay none use_tls attempt tx tunnel_tx stream_id s = (not_found, s)
replay (some request) use_tls attempt tx tunnel_tx stream_id s =
    let s' = record s { tunnel = put tunnel_tx unbounded s.tunnel } in
    let (local, s'') = setup_new_stream use_tls attempt tx tunnel_tx stream_id s' in
    replay_to local request.entire_request s''

-- `stream_id` is the generated id, and `tunnel_tx` the place of the new channel whose packets are
-- thrown away.
unfoldable pub replay_request :
    Bool → Attempt → Sender → Sender → StreamId → Text → Table Request → Client → Reply × Client
unfolding replay
replay_request use_tls attempt tx tunnel_tx stream_id rid requests s =
    replay (Table.get rid requests) use_tls attempt tx tunnel_tx stream_id s
