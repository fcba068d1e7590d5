-- ===== src/Tests/PartTests.antt =====
-- Parts of multi-part bodies on concrete connections.
use ant_http.Decode.Parts.{
  Uploads, Part, part_name_of, part_data, part_task, disposition, upload_path,
  decode_multi_part_request_data_run,
}
use ant_http.Decode.Parts.Field.{IsFieldValue}
use ant_http.Decode.Parts.File.{file_left, file_rest, Writes, decode_multi_part_request_data-file}
use ant_http.Decode.Parts.{handle_behind}
use ant_http.Decode.Parts.Form.{IsField, IsClosing, FieldsRead, fields_text, fields_text-FieldsRead}
use ant_http.Decode.Parts.Lines.{line_of, Fits, Stops, Passes}
use ant_http.Decode.Parts.Name.{field_head, IsFieldName, is_without_lem}
use ant_http.Dictionary.{Dictionary, dict, dict_n, dput, dvalue}
use ant_http.Handle.{Conn, Input, Output}
use ant_http.Utils.Guard.{guard_write, guard_write_of, guard_write_loop}
use ant_http.Handle.Stream.{stream, IsOpen}
use ant_http.Prelude.{
  ℕ, Bytes, codes, str_eq, ltb, IsText, has_part, starts_with, c_string, ◌<◌, Bool, true, false,
  not, ◌==◌, ◌&&◌, All, Option, none, some, List, [], ◌∷◌, ◌++◌, ◌≡◌, ◌≢◌, refl, arith,
}
use ant_http.Request.{Request, done, field}
use ant_http.Tests.RequestTests.{conn_of, request_of, moment}

abbrev uploads : Uploads
uploads = record {
  tmpdir = codes "/tmp";
  time = 9;
  last_io = 8;
  open_file = λ path. some (λ n. []);
}

abbrev eol : Bytes
eol = 13 ∷ 10 ∷ []

abbrev body : Bytes
body = eol ++ (codes "hello" ++ (eol ++ (codes "--B--" ++ eol)))

name_test :
    part_name_of (codes "Content-Disposition: form-data; name=\"f\"; filename=\"a.txt\"" ++ eol)
    ≡ record { name = some (codes "f"); file = some (codes "a.txt") }
unfolding part_name_of ant_http.Prelude.str_eq
name_test = refl

abbrev stored : Part
stored = part_data uploads (codes "B") (codes "f") (some (codes "a.txt")) dict (conn_of body)

file_test : stored.file ≡ some (codes "/tmp/a.txt.9", codes "hello")
unfolding part_data ant_http.Handle.read_buf ant_http.Handle.read_line ant_http.Handle.line_from
    ant_http.Handle.antd_recv ant_http.Handle.recv_loop ant_http.Handle.prepend
    ant_http.Handle.put_back ant_http.Prelude.starts_with ant_http.Prelude.c_string
    ant_http.Prelude.has_part ant_http.Utils.Guard.guard_write_loop
    ant_http.Utils.Guard.guard_write_of ant_http.Handle.Stream.stream
file_test = refl

abbrev with_boundary : Dictionary Bytes
with_boundary = (dput (dict_n 16) (codes "MULTI_PART_BOUNDARY") (some (codes "B"))).0

abbrev closing : Bytes
closing = codes "--B--" ++ (13 ∷ [])

is_text : Bytes → Bool
is_text [] = true
is_text (c ∷ s) = ltb 0 c && ltb c 256 && is_text s

is_text-IsText : (s : Bytes) → is_text s ≡ true → IsText s
unfolding is_text
is_text-IsText [] h = tt
is_text-IsText (c ∷ s) h = ground (arith, is_text-IsText s)

name_f : IsFieldName (codes "f")
name_f = (
  (λ e. cc),
  ((omega arith, omega arith), tt),
  ((λ e. omega arith), tt),
  ((λ e. omega arith), tt),
  ((λ e. omega arith), tt),
  ((λ e. omega arith), tt),
)

field_head-Fits : Fits (field_head (codes "f"))
field_head-Fits = (is_without_lem b'\n' (field_head (codes "f")) refl, omega arith)

value_hi : IsFieldValue (codes "hi")
unfolding is_text
value_hi = (
  (λ e. cc),
  is_text-IsText (codes "hi") refl,
  is_without_lem b'\n' (codes "hi") refl,
  (λ e. omega arith),
  (λ e. omega arith),
  (λ e. omega arith),
  (λ e. omega arith),
)

closing-Stops : Stops (has_part (codes "B")) closing
unfolding has_part starts_with c_string
closing-Stops = ((is_without_lem b'\n' closing refl, omega arith), refl)

abbrev file_head : Bytes
file_head = codes "Content-Disposition: form-data; name=\"f\"; filename=\"a.txt\"" ++ (13 ∷ [])

abbrev file_request : Request
file_request =
    request_of with_boundary
      (file_head ++ (10 ∷ file_rest [] ((codes "hi" ++ (13 ∷ [])) ∷ []) (closing ++ (10 ∷ []))))

file_boundary : field file_request "MULTI_PART_BOUNDARY" ≡ some (codes "B")
unfolding field dvalue dict_n dput ant_http.Utils.Hash.hash str_eq
file_boundary = refl

file_head-Stops : Stops (has_part disposition) file_head
unfolding has_part starts_with c_string
file_head-Stops = ((is_without_lem 10 file_head refl, omega arith), refl)

file_names :
    part_name_of (c_string (line_of file_head))
    ≡ record { name = some (codes "f"); file = some (codes "a.txt") }
unfolding part_name_of str_eq c_string
file_names = refl

line-Passes : All (Passes (has_part (codes "B"))) ((codes "hi" ++ (13 ∷ [])) ∷ [])
unfolding has_part starts_with c_string
line-Passes = (((is_without_lem 10 (codes "hi" ++ (13 ∷ [])) refl, omega arith), refl), tt)

abbrev all_written : ℕ → List Output
all_written n = []

line_written : Writes all_written 0 ((codes "hi" ++ (13 ∷ [])) ∷ [])
unfolding guard_write guard_write_of guard_write_loop
line_written = (refl, tt)

decode_multi_part_request_data-file_example :
    (left : List Input) × (decode_multi_part_request_data_run uploads moment file_request
      ≡ done (
          part_task uploads moment (codes "B") file_request (
            file_left
              (codes "f")
              (codes "a.txt")
              (upload_path uploads (codes "a.txt"))
              (codes "hi")
              closing
              dict
              (record file_request.conn { input = left }))))
    × (stream left ≡ [])
    × IsOpen false left
unfolding IsOpen stream
decode_multi_part_request_data-file_example =
    decode_multi_part_request_data-file uploads moment file_request all_written (codes "B")
      file_head (codes "f") (codes "a.txt") (codes "hi") closing [] []
      ((codes "hi" ++ (13 ∷ [])) ∷ []) tt file_boundary file_head-Stops file_names tt line-Passes
      closing-Stops refl line_written refl refl

abbrev between : Bytes
between = codes "--B" ++ (13 ∷ [])

between-Stops : Stops (has_part (codes "B")) between
unfolding has_part starts_with c_string
between-Stops = ((is_without_lem b'\n' between refl, omega arith), refl)

closing-IsClosing : IsClosing (codes "B") between closing
unfolding handle_behind has_part starts_with c_string
closing-IsClosing = record {
  stops = between-Stops;
  stops_last = closing-Stops;
  goes_on = refl;
  ends_here = refl;
}

hi-IsField : IsField (codes "f", codes "hi")
hi-IsField = (
  name_f,
  field_head-Fits,
  value_hi,
  (is_without_lem b'\n' (codes "hi" ++ (13 ∷ [])) refl, omega arith),
)

abbrev form_request : Request
form_request =
    request_of with_boundary
      (fields_text between closing (codes "f", codes "hi") ((codes "f", codes "hi") ∷ []) [])

form_boundary : field form_request "MULTI_PART_BOUNDARY" ≡ some (codes "B")
unfolding field dvalue dict_n dput ant_http.Utils.Hash.hash str_eq
form_boundary = refl

fields_text-FieldsRead_example :
    FieldsRead uploads moment form_request
      ((codes "f", codes "hi") ∷ (codes "f", codes "hi") ∷ [])
      []
unfolding IsOpen stream
fields_text-FieldsRead_example =
    fields_text-FieldsRead uploads moment (codes "B") between closing [] form_request
      (codes "f", codes "hi") ((codes "f", codes "hi") ∷ []) tt form_boundary
      (hi-IsField, (hi-IsField, tt)) closing-IsClosing refl
