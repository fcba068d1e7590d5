-- ===== src/Decode/Parts.antt =====
-- decode.c: `decode_multi_part_request_data`, which reads one part of a multi-part body. The directory
-- for uploads, the clock and the files stand outside: they are arguments.

pub mod Lines
pub mod Name
pub mod Field
pub mod File
pub mod Form
use ant_http.Decode.Tokens.{tokens}
use ant_http.Dictionary.{Dictionary, dput}
use ant_http.Handle.{Conn, Output, read_buf, buff_len}
use ant_http.Handle.Response.{crlf}
use ant_http.Handle.Stream.{stream}
use ant_http.Prelude.{
  ℕ, zero, suc, ◌+◌, ◌==◌, ℤ, pos, negsuc, ◌+ℤ◌, Bytes, codes, str_eq, c_string, starts_with,
  has_part, Bool, true, false, not, ◌||◌, ◌&&◌, if◌then◌else◌, Option, none, some, List, [], ◌∷◌,
  ◌++◌, length, take,
}
use ant_http.Request.{
  decode_multi_part_request_data, Request, Moment, RequestTask, readable, writable, Outcome, done,
  ◌>>=◌, text_of, task_on, field,
}
use ant_http.Utils.Decimal.{decimal, decimal_ℤ}
use ant_http.Utils.Guard.{guard_write}
use ant_http.Utils.Mime.{ext}
use ant_http.Utils.Trim.{strsep, trim}

-- `g_server_config.tmpdir`, `time(NULL)`, the client's `last_io` when the part was read, and what
-- `open` makes of a path: for each line that is written, what the calls of `write` return.
pub record Uploads : Type 0 where
  pub tmpdir : Bytes
  pub time : ℕ
  pub last_io : ℕ
  pub open_file : Bytes → Option (ℕ → List Output)

-- A loop `while ((len = read_buf(...)) > 0 && !stop(buf))`: the lines that its body sees, and the
-- line that ended it, which is empty where nothing came. It takes no more rounds than bytes are to
-- come.
unfoldable pub lines_loop : ℕ → (Bytes → Bool) → Conn → List Bytes × Bytes × Conn
lines_loop zero stop c = ([], [], c)
lines_loop (suc fuel) stop c =
    let (line, c') = read_buf buff_len c in
    let (lines, last, c₁) = lines_loop fuel stop c' in
    if length line == 0 || stop (c_string line) then ([], line, c') else (line ∷ lines, last, c₁)

unfoldable pub lines_until : (Bytes → Bool) → Conn → List Bytes × Bytes × Conn
unfolding lines_loop
lines_until stop c = lines_loop (suc (length (stream c.input))) stop c

-- The `name` and the `filename` of a part.
pub record PartName : Type 0 where
  pub name : Option Bytes
  pub file : Option Bytes

unfoldable pub unquoted : Bytes → Bytes
unfolding trim
unquoted s = trim (trim (trim (trim s b' ') b'\n') b'\r') b'"'

unfoldable pub with_value : Bytes → Option Bytes → PartName → PartName
unfolding trim unquoted strsep
with_value key none p = p
with_value key (some v) p =
    let value = unquoted (strsep b'=' v).0 in
    if str_eq (trim key b' ') (codes "name")
    then record p { name = some value }
    else if str_eq (trim key b' ') (codes "filename")
    then record p { file = some value }
    else p

unfoldable pub with_token : Bytes → PartName → PartName
unfolding with_value strsep
with_token token p =
    let (key, rest) = strsep b'=' token in if length key == 0 then p else with_value key rest p

unfoldable pub with_tokens : List Bytes → PartName → PartName
unfolding with_token
with_tokens [] p = p
with_tokens (t ∷ ts) p = with_tokens ts (with_token t p)

unfoldable pub part_name_of : Bytes → PartName
unfolding with_tokens tokens
part_name_of line = with_tokens (tokens b';' line) record { name = none; file = none }

-- What a part leaves: the parameters, the connection, `line` unless it is NULL, and the file that was
-- written, if one was, with its path.
pub record Part : Type 0 where
  pub params : Dictionary Bytes
  pub conn : Conn
  pub line : Option Bytes
  pub file : Option (Bytes × Bytes)

unfoldable pub is_empty : List Bytes → Bool
is_empty [] = true
is_empty (l ∷ ls) = false

unfoldable pub value_of_line : Bytes → Bytes
unfolding trim
value_of_line line = trim (trim (trim (c_string line) b'\n') b'\r') b' '

-- A part without a file: one line, and then all up to the boundary, of which nothing is kept.
unfoldable pub field_part : Bytes → Bytes → Dictionary Bytes → Conn → Part
unfolding lines_until value_of_line is_empty
field_part boundary name params c =
    let (first, c₁) = read_buf buff_len c in
    let (lines, line, c₂) = lines_until (has_part boundary) c₁ in
    let none_read = length first == 0 in
    record {
      params = if none_read then params else (dput params name (some (value_of_line first))).0;
      conn = c₂;
      line = if none_read && is_empty lines then none else some (c_string line);
      file = none;
    }

-- The bytes of the lines that reach the file, the n-th line first, and the sum of the results of
-- `guard_write`. The sum is an `int`: it is right for a file that an `int` can measure.
unfoldable pub write_result : Bytes × Bool → ℤ
write_result (s, true) = pos (length s)
write_result (s, false) = negsuc 0

unfoldable pub write_lines : (ℕ → List Output) → ℕ → List Bytes → Bytes × ℤ
unfolding guard_write write_result
write_lines disk n [] = ([], pos 0)
write_lines disk n (l ∷ ls) =
    let w = guard_write l (disk n) in
    let (s, total) = write_lines disk (suc n) ls in (w.0 ++ s, write_result w +ℤ total)

-- `ftruncate`, which refuses a negative length.
unfoldable pub truncated : Bytes → ℤ → Bytes
truncated s (pos n) = take n s
truncated s (negsuc n) = s

unfoldable pub put_upload : Bytes → Bytes → Bytes → ℤ → Dictionary Bytes → Dictionary Bytes
unfolding ext decimal_ℤ
put_upload name file path total params =
    let d₁ = (dput params (name ++ codes ".file") (some file)).0 in
    let d₂ = (dput d₁ (name ++ codes ".tmp") (some path)).0 in
    let d₃ = (dput d₂ (name ++ codes ".size") (some (decimal_ℤ total))).0 in
    (dput d₃ (name ++ codes ".ext") (ext file)).0

unfoldable pub upload_path : Uploads → Bytes → Bytes
unfolding decimal
upload_path u file = u.tmpdir ++ (b'/' ∷ (file ++ (b'.' ∷ decimal u.time)))

unfoldable pub to_disk :
    Option (ℕ → List Output) → Bytes → Bytes → Bytes → Bytes → Dictionary Bytes → Conn → Part
unfolding lines_until write_lines put_upload truncated
to_disk none path boundary name file params c = record {
  params = params;
  conn = c;
  line = none;
  file = none;
}
to_disk (some disk) path boundary name file params c =
    let (lines, line, c') = lines_until (has_part boundary) c in
    let (bytes, sum) = write_lines disk 0 lines in
    let total = sum +ℤ negsuc 1 in
    record {
      params = put_upload name file path total params;
      conn = c';
      line = some (c_string line);
      file = some (path, truncated bytes total);
    }

unfoldable pub file_part : Uploads → Bytes → Bytes → Bytes → Dictionary Bytes → Conn → Part
unfolding to_disk upload_path
file_part u boundary name file params c =
    let path = upload_path u file in to_disk (u.open_file path) path boundary name file params c

unfoldable pub part_data : Uploads → Bytes → Bytes → Option Bytes → Dictionary Bytes → Conn → Part
unfolding field_part file_part lines_until
part_data u boundary name file params c =
    let (_, _, c') = lines_until (starts_with crlf) c in
    elim file [
      | none ↦ field_part boundary name params c'
      | some f ↦ file_part u boundary name f params c'
    ]

-- The handler goes on with the next part unless the last line ends the body.
unfoldable pub handle_behind : Bytes → Option Bytes → Bool
handle_behind boundary none = false
handle_behind boundary (some line) =
    not (has_part (boundary ++ codes "--") line) && has_part boundary line

unfoldable pub part_task :
    Uploads → Moment → Bytes → Request → Part → RequestTask × Option (Bytes × Bytes)
unfolding handle_behind task_on
part_task u m boundary rq p =
    let handle =
      if handle_behind boundary p.line then some decode_multi_part_request_data else none in
    let task =
      task_on m (readable + writable) handle (record rq { conn = p.conn; params = p.params }) in
    (record task { access_time = u.last_io }, p.file)

unfoldable pub named_part :
    Uploads → Moment → PartName → Request → Outcome (RequestTask × Option (Bytes × Bytes))
unfolding part_task part_data field
named_part u m p rq = elim p.name [
  | none ↦
      done (
        part_task u m [] rq record { params = rq.params; conn = rq.conn; line = none; file = none })
  | some name ↦ text_of (field rq "MULTI_PART_BOUNDARY") >>= (λ boundary.
      done (part_task u m boundary rq (part_data u boundary name p.file rq.params rq.conn)))
]

abbrev pub disposition : Bytes
disposition = codes "Content-Disposition:"

-- The task, and the file that was written. A request has its boundary here, since
-- `decode_multi_part_request` put it; without one `strstr` is called on NULL, at the latest when the
-- part's last line has come.
unfoldable pub decode_multi_part_request_data_run :
    Uploads → Moment → Request → Outcome (RequestTask × Option (Bytes × Bytes))
unfolding named_part part_name_of lines_until
decode_multi_part_request_data_run u m rq =
    let (_, line, c) = lines_until (has_part disposition) rq.conn in
    let rq₁ = record rq { conn = c } in
    if length line == 0 || not (has_part disposition (c_string line))
    then done (task_on m (readable + writable) none rq₁, none)
    else named_part u m (part_name_of (c_string line)) rq₁
