-- ===== src/Http/AccessLog.antt =====
-- cmd/mail-admin/app/infra/httpx/httpx.go: the response recorder and the middleware that logs each
-- request. A handler is the calls it makes of its response writer; a call of `Write` is given with
-- the number of bytes that the writer below reports. The random bytes of a request's name, in
-- hexadecimal, and the time stamp that stands in for them are parameters, as are the clock's
-- readings. `requestRemoteIP` is `requestClientIP` of auth/service.go, word for word.
pub mod Laws
use ucware_mail_server.Base.{
  ℕ, ◌+◌, ◌-◌, ◌/◌, ◌==◌, Bool, Option, none, some, List, [], ◌∷◌, if◌then◌else◌,
}
use ucware_mail_server.Text.{Text, is_empty, trim_space}
use ucware_mail_server.Sql.{Result, ok, err}
use ucware_mail_server.Http.{Request}
use ucware_mail_server.Http.ClientIp.{request_client_ip}

pub data Call : Type 0 where
  write_header : ℕ → Call
  write : ℕ → Call

pub record ResponseRecorder : Type 0 where
  pub status : ℕ
  pub bytes : ℕ

abbrev pub or_ok : ℕ → ℕ
or_ok status = if status == 0 then 200 else status

-- `WriteHeader` and `Write`.
abbrev pub record_call : Call → ResponseRecorder → ResponseRecorder
record_call (write_header code) r = record r { status = code }
record_call (write n) r = record { status = or_ok r.status; bytes = r.bytes + n }

unfoldable pub record_calls : List Call → ResponseRecorder → ResponseRecorder
record_calls [] r = r
record_calls (c ∷ cs) r = record_calls cs (record_call c r)

unfoldable pub recorded : List Call → ResponseRecorder
unfolding record_calls
recorded cs =
    let r = record_calls cs (record { status = 0; bytes = 0 }) in
    record r { status = or_ok r.status }

new_request_id : Result Text → Text → Text
new_request_id (ok id) stamp = id
new_request_id (err e) stamp = stamp

unfoldable pub request_id_of : Text → Result Text → Text → Text
unfolding new_request_id trim_space
request_id_of header random stamp =
    if is_empty (trim_space header) then new_request_id random stamp else trim_space header

query_of : Text → Option Text
query_of [] = none
query_of (c ∷ q) = some (c ∷ q)

-- What the middleware has around the handler: the header `X-Request-ID`, the query, the draw of
-- random bytes and the stamp in its place, and the clock before the handler, after it, and where
-- `time.Since` reads it.
pub record Around : Type 0 where
  pub header : Text
  pub raw_query : Text
  pub random : Result Text
  pub stamp : Text
  pub started : ℕ
  pub ended : ℕ
  pub since : ℕ

-- The fields of the line that is logged.
pub record Entry : Type 0 where
  pub ts : ℕ
  pub request_id : Text
  pub method : Text
  pub path : Text
  pub status : ℕ
  pub bytes : ℕ
  pub duration_ms : ℕ
  pub remote_ip : Text
  pub user_agent : Text
  pub query : Option Text

abbrev pub millisecond : ℕ
millisecond = 1000000

-- The line that is logged after the handler has made its calls.
unfoldable pub log_middleware : (Text → Option Text) → Around → Request → List Call → Entry
unfolding request_id_of recorded query_of request_client_ip trim_space
log_middleware split_host a r calls = record {
  ts = a.ended;
  request_id = request_id_of a.header a.random a.stamp;
  method = r.method;
  path = r.path;
  status = (recorded calls).status;
  bytes = (recorded calls).bytes;
  duration_ms = (a.since - a.started) / millisecond;
  remote_ip = request_client_ip split_host r.forwarded_for r.real_ip r.remote_addr;
  user_agent = r.user_agent;
  query = query_of (trim_space a.raw_query);
}
