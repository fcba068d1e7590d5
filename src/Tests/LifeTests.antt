-- ===== src/Tests/LifeTests.antt =====
-- The tasks of one request.

use ant_http.Config.{default_config}
use ant_http.Decode.Rules.{Regex}
use ant_http.Dictionary.{Dictionary, dict, dict_n, dput}
use ant_http.Dictionary.Laws.{dict_n-IsValid, dput-IsValid}
use ant_http.Prelude.{
  ℤ, Option, pos, Bytes, codes, str_eq, false, ◌≡◌, negsuc, none, some, [], ◌∷◌, ◌++◌, refl, arith,
}
use ant_http.Request.{accept_request, RequestTask, Config, Port, ip_all}
use ant_http.Server.Accept.{Polled, Handshake, accept_request_run}
use ant_http.Server.Accept.Line.{request_line}
use ant_http.Server.Accept.Parsed.{to_read}
use ant_http.Server.Order.{HasTexts, IsReady, put-HasTexts, dvalue-dput}
use ant_http.Server.Order.Life.{Life, here, after, accepting, Life-IsReady, Life-progress}
use ant_http.Handle.{Conn}
use ant_http.Server.Files.{FileWorld}
use ant_http.Server.Resolve.{World, FileKind}
use ant_http.Tests.RequestTests.{request_of, moment}

abbrev no_match : Regex
no_match pattern text = none

-- Every path is a file.
abbrev world : World
world = record { regex = no_match; stat = λ path. FileKind.regular; load = λ name. none }

abbrev port : Port
port = record {
  port = pos 80;
  use_ssl = some (pos 0);
  htdocs = some (codes "/www");
  plugins = none;
  sock = negsuc 0;
  type = ip_all;
  rules = dict;
}

abbrev ports : Dictionary Port
ports = (dput (dict_n 16) (codes "80") (some port)).0

abbrev mimes : Dictionary Bytes
mimes = (dput (dict_n 16) (codes "text/html") (some (codes "html,htm"))).0

abbrev config : Config
config = record default_config { mimes = mimes; ports = ports; connection = pos 1 }

abbrev digest : Bytes → Bytes
digest s = s

abbrev files : FileWorld
files = record {
  file = λ path. some record { size = 2; changed = 5; bytes = some (codes "hi") };
  parse_time = λ text. 0;
  time_text = λ t. codes "Mon, 01 Jan 2024 00:00:00 GMT";
}

abbrev unknown_host : Bytes → Option Bytes
unknown_host name = none

abbrev refused : Bytes → ℤ → Option (ℤ × Conn)
refused ip n = none

abbrev with_port : Dictionary Bytes
with_port = (dput (dict_n 16) (codes "SERVER_PORT") (some (codes "80"))).0

abbrev fields : Dictionary Bytes
fields = (dput with_port (codes "SERVER_WWW_ROOT") (some (codes "/www"))).0

-- The socket's task, before and after its first run.
abbrev first_task : RequestTask
first_task = record {
  id = pos 7;
  stamp = 100;
  access_time = 99;
  handle = some accept_request;
  callback = [];
  events = [];
  data_of =
      request_of fields
        (request_line (codes "GET") (codes "/a") (codes "HTTP/1.1") ++ (b'\n' ∷ []));
}

abbrev second_task : RequestTask
second_task = accept_request_run moment to_read Handshake.failed first_task.data_of

life : Life world config digest files unknown_host refused first_task second_task
life =
    after first_task first_task second_task accept_request (here first_task) refl
      (accepting moment to_read Handshake.failed first_task.data_of)

with_port-HasTexts : HasTexts config [] with_port
unfolding str_eq
with_port-HasTexts = record {
  valid =
      dput-IsValid (dict_n 16) (codes "SERVER_PORT") (some (codes "80"))
        (dict_n-IsValid 16 (omega arith));
  served = (
    codes "80",
    port,
    dvalue-dput (dict_n 16) (codes "SERVER_PORT") (codes "SERVER_PORT") (codes "80")
        (dict_n-IsValid 16 (omega arith)),
    dvalue-dput (dict_n 16) (codes "80") (codes "80") port (dict_n-IsValid 16 (omega arith)),
  );
  there = tt;
}

first_task-IsReady : IsReady config first_task.handle first_task.data_of.fields
unfolding str_eq
first_task-IsReady =
    put-HasTexts config [] with_port "SERVER_WWW_ROOT" (codes "/www") refl with_port-HasTexts

Life-IsReady_example : IsReady config second_task.handle second_task.data_of.fields
Life-IsReady_example =
    Life-IsReady world config digest files unknown_host refused first_task second_task life
      first_task-IsReady

-- A connection on which nothing is ready waits in the same handler.
abbrev nothing_ready : Polled
nothing_ready = record { sel = pos 0; can_read = false; can_write = false; broken = false }

abbrev waiting_task : RequestTask
waiting_task = accept_request_run moment nothing_ready Handshake.failed first_task.data_of

waiting : Life world config digest files unknown_host refused first_task waiting_task
waiting =
    after first_task first_task waiting_task accept_request (here first_task) refl
      (accepting moment nothing_ready Handshake.failed first_task.data_of)

waiting_again :
    Life world config digest files unknown_host refused waiting_task
      (accept_request_run moment nothing_ready Handshake.failed waiting_task.data_of)
unfolding accept_request_run
waiting_again =
    after waiting_task waiting_task _ accept_request (here waiting_task) refl
      (accepting moment nothing_ready Handshake.failed waiting_task.data_of)

Life-progress_example : waiting_task.handle ≡ first_task.handle
unfolding accept_request_run
Life-progress_example =
    Life-progress world config digest files unknown_host refused first_task waiting_task
      (accept_request_run moment nothing_ready Handshake.failed waiting_task.data_of) waiting
      waiting_again first_task-IsReady refl
