-- ===== src/Api/Server.antt =====
-- internal/api/server.go and middleware.go: the limits of the server, and the stack of middleware
-- around its routes.
--
-- A handler is what it does to the response, one action after another, and how it ends. chi's
-- RequestID has put `id` into a request before the stack; chi's Timeout is the parameter `timeout`,
-- and what its WrapResponseWriter counts are `ww_status` and `ww_bytes`. Durations are in microseconds.
pub mod Panics
use tick.Base.{
  ℕ, ◌+◌, ◌-◌, ◌*◌, ◌^◌, ◌≡◌, Bool, true, false, Option, none, some, List, [], ◌∷◌, ◌++◌, Text,
  bytes, ◌=?◌, length, take, ltb, not, select, if◌then◌else◌,
}
use tick.Domain.{second}

pub record Config : Type 0 where
  pub read_timeout : ℕ
  pub write_timeout : ℕ
  pub idle_timeout : ℕ
  pub request_timeout : ℕ
  pub max_body_bytes : ℕ

abbrev pub default_config : Config
default_config = record {
  read_timeout = 10 * second;
  write_timeout = 30 * second;
  idle_timeout = 90 * second;
  request_timeout = 25 * second;
  max_body_bytes = 2 ^ 20;
}

-- http.Server, as HTTPServer builds it.
pub record HttpServer : Type 0 where
  pub addr : Text
  pub read_timeout : ℕ
  pub write_timeout : ℕ
  pub idle_timeout : ℕ

abbrev pub http_server : Config → Text → HttpServer
http_server cfg addr = record {
  addr = addr;
  read_timeout = cfg.read_timeout;
  write_timeout = cfg.write_timeout;
  idle_timeout = cfg.idle_timeout;
}

-- A body: the bytes that can be read, and whether reading ends in an error.
pub record Body : Type 0 where
  pub content : Text
  pub fails : Bool

pub record Request : Type 0 where
  pub id : Text
  pub method : Text
  pub path : Text
  pub body : Body

-- The calls on a http.ResponseWriter.
pub data Action : Type 0 where
  set_header : (key value : Text) → Action
  write_header : (status : ℕ) → Action
  write : (content : Text) → Action

pub data Ending : Type 0 where
  returned : Ending
  panicked : (value : Text) → Ending

pub data LogLine : Type 0 where
  panic_recovered : (value id : Text) → LogLine
  http_request : (method path : Text) (status size : ℕ) (id : Text) → LogLine

pub record Handled : Type 0 where
  pub actions : List Action
  pub ending : Ending
  pub logs : List LogLine

abbrev pub Handler : Type 0
Handler = Request → Handled

unfoldable pub set_request_id_header : Handler → Handler
set_request_id_header next r =
    let h = next r in
    if r.id =? []
    then h
    else record h { actions = set_header (bytes "X-Request-Id") r.id ∷ h.actions }

abbrev pub internal_error : Text
internal_error = bytes "{\"error\":{\"code\":\"internal\",\"message\":\"internal server error\"}}"

-- The deferred function.
abbrev pub recovered : Text → Handled → Ending → Handled
recovered id h returned = h
recovered id h (panicked value) = record {
  actions =
      h.actions
      ++ (set_header (bytes "Content-Type") (bytes "application/json")
          ∷ write_header 500
          ∷ write internal_error
          ∷ []);
  ending = returned;
  logs = h.logs ++ panic_recovered value id ∷ [];
}

unfoldable pub recoverer : Handler → Handler
recoverer next r = let h = next r in recovered r.id h h.ending

-- A panic passes the statement that logs.
abbrev pub logged : LogLine → Handled → Ending → Handled
logged log_line h returned = record h { logs = h.logs ++ log_line ∷ [] }
logged log_line h (panicked value) = h

module _ (ww_status ww_bytes : List Action → ℕ) where
  unfoldable pub request_logger : Handler → Handler
  request_logger next r =
      let h = next r in
      logged (http_request r.method r.path (ww_status h.actions) (ww_bytes h.actions) r.id) h
        h.ending

-- http.MaxBytesReader.
unfoldable pub max_bytes_reader : ℕ → Body → Body
unfolding take
max_bytes_reader n b =
    if ltb n (length b.content) then record { content = take n b.content; fails = true } else b

unfoldable pub max_body_bytes : ℕ → Handler → Handler
unfolding max_bytes_reader
max_body_bytes n next r = next (record r { body = max_bytes_reader n r.body })

-- New: the stack, outermost first.
module _ (ww_status ww_bytes : List Action → ℕ) (timeout : ℕ → Handler → Handler)
    (cfg : Config) where
  unfoldable pub serve : Handler → Handler
  unfolding set_request_id_header recoverer request_logger max_body_bytes
  serve routes = set_request_id_header (
      recoverer (
        request_logger ww_status ww_bytes
          (timeout cfg.request_timeout (max_body_bytes cfg.max_body_bytes routes))))
