-- ===== src/Decode/Parts/Field.antt =====
-- decode.c: `decode_multi_part_request_data` on a part that is a field of a form.
use ant_http.Decode.Parts.{
  Uploads, Part, disposition, value_of_line, field_part, part_data, part_task, named_part,
  part_name_of, decode_multi_part_request_data_run,
}
use ant_http.Decode.Parts.Lines.{line_of, all_lines, Fits, Passes, Stops, lines_until-Seen}
use ant_http.Decode.Parts.Name.{IsFieldName, form_data, field_head, part_name-field_head}
use ant_http.Dictionary.{Dictionary, dput}
use ant_http.Handle.{Input, Conn, buff_len}
use ant_http.Handle.NextLine.{read_buf-Took}
use ant_http.Handle.Response.{crlf}
use ant_http.Handle.Stream.{stream, IsOpen}
use ant_http.Prelude.{
  ℕ, ◌<◌, ◌==◌, Bytes, codes, c_string, c_string_text, starts_with, has_part, IsText, false, true,
  Option, none, some, List, [], ◌∷◌, ◌++◌, All, All-append, length, ◌≡◌, ◌≢◌, refl, ap, ◌∙◌, arith,
}
use ant_http.Request.{Request, Moment, done, field}
use ant_http.Utils.Trim.{StartsWithout, EndsWithout, trim}
use ant_http.Utils.Trim.Ends.{trim_copies_of, trim_whole, ends_snoc, word_starts, append_ne}

-- A value that `trim` leaves as it is.
abbrev pub IsFieldValue : Bytes → Type 0
IsFieldValue value =
    (value ≢ [])
    × IsText value
    × All (λ b. b ≢ b'\n') value
    × StartsWithout b'\r' value
    × EndsWithout b'\r' value
    × StartsWithout b' ' value
    × EndsWithout b' ' value

pub line_ne : (s : Bytes) → length (line_of s) == 0 ≡ false
line_ne [] = refl
line_ne (b ∷ s) = ground arith

snoc-IsText : (s : Bytes) (c : ℕ) → IsText s → 0 < c → c < 256 → IsText (s ++ (c ∷ []))
snoc-IsText s c t l h = All-append (λ c. (0 < c) × (c < 256)) s (c ∷ []) t ((l, h), tt)

line_text : (s : Bytes) → IsText s → c_string (line_of s) ≡ line_of s
line_text s t = c_string_text (line_of s) (snoc-IsText s b'\n' t (omega arith) (omega arith))

value_of_line-line_of :
    (value : Bytes) → IsFieldValue value → value_of_line (line_of (value ++ (b'\r' ∷ []))) ≡ value
unfolding value_of_line
value_of_line-line_of value (ne, t, n, r, r', s, s') =
    ap (λ l. trim (trim (trim l b'\n') b'\r') b' ')
      (line_text (value ++ (b'\r' ∷ [])) (snoc-IsText value b'\r' t (omega arith) (omega arith)))
    ∙ ap (λ l. trim (trim l b'\r') b' ')
        (trim_copies_of b'\n' 1 (value ++ (b'\r' ∷ [])) (append_ne value (b'\r' ∷ []) ne)
          (word_starts b'\n' value (b'\r' ∷ []) ne n)
          (ends_snoc b'\n' value b'\r' (λ e. omega arith)))
    ∙ ap (λ l. trim l b' ') (trim_copies_of b'\r' 1 value ne r r')
    ∙ trim_whole b' ' value ne s s'

-- The part behind its first line: further lines of its head, the empty line, and the value.
abbrev pub field_rest : List Bytes → Bytes → Bytes → Bytes
field_rest hs value rest =
    all_lines hs ++ ((b'\r' ∷ []) ++ (b'\n' ∷ ((value ++ (b'\r' ∷ [])) ++ (b'\n' ∷ rest))))

-- The part that a field leaves.
abbrev pub field_left : Bytes → Bytes → Bytes → Dictionary Bytes → Conn → Part
field_left name value closing params c = record {
  params = (dput params name (some value)).0;
  conn = c;
  line = some (c_string (line_of closing));
  file = none;
}

field_part-field_left :
    (boundary name value closing later : Bytes) (params : Dictionary Bytes) (c : Conn)
    → IsOpen c.ssl c.input
    → IsFieldValue value
    → Fits (value ++ (b'\r' ∷ []))
    → Stops (has_part boundary) closing
    → stream c.input ≡ (value ++ (b'\r' ∷ [])) ++ (b'\n' ∷ (closing ++ (b'\n' ∷ later)))
    → (left : List Input) × (field_part boundary name params c
        ≡ field_left name value closing params (record c { input = left }))
      × (stream left ≡ later)
      × IsOpen c.ssl left
unfolding field_part
field_part-field_left boundary name value closing later params c o v (n, f) h e =
    let t = read_buf-Took buff_len c (value ++ (b'\r' ∷ [])) _ o n f e in
    let s =
      lines_until-Seen (has_part boundary) (record c { input = t.left }) [] closing later
        t.open_still tt h t.behind in
    (
      s.left,
      rw (t.result, s.result, line_ne (value ++ (b'\r' ∷ [])), value_of_line-line_of value v) refl,
      s.behind,
      s.open_still,
    )

pub empty_line-Stops : Stops (starts_with crlf) (b'\r' ∷ [])
unfolding starts_with c_string
empty_line-Stops = ((((λ e. omega arith), tt), omega arith), refl)

part_data-field_left :
    (u : Uploads) (boundary name value closing later : Bytes) (hs : List Bytes)
    (params : Dictionary Bytes) (c : Conn)
    → IsOpen c.ssl c.input
    → IsFieldValue value
    → Fits (value ++ (b'\r' ∷ []))
    → All (Passes (starts_with crlf)) hs
    → Stops (has_part boundary) closing
    → stream c.input ≡ field_rest hs value (closing ++ (b'\n' ∷ later))
    → (left : List Input) × (part_data u boundary name none params c
        ≡ field_left name value closing params (record c { input = left }))
      × (stream left ≡ later)
      × IsOpen c.ssl left
unfolding part_data
part_data-field_left u boundary name value closing later hs params c o v f p h e =
    let s =
      lines_until-Seen (starts_with crlf) c hs (b'\r' ∷ [])
        ((value ++ (b'\r' ∷ [])) ++ (b'\n' ∷ (closing ++ (b'\n' ∷ later)))) o p empty_line-Stops
        e in
    let (left, r, behind, o') =
      field_part-field_left boundary name value closing later params (record c { input = s.left })
        s.open_still v f h s.behind in
    (left, ap (λ q. field_part boundary name params q.2) s.result ∙ r, behind, o')

field_head-disposition :
    (name : Bytes) → has_part disposition (c_string (line_of (field_head name))) ≡ true
unfolding has_part starts_with c_string
field_head-disposition name = refl

field_head-text :
    (name : Bytes)
    → IsFieldName name
    → c_string (line_of (field_head name)) ≡ line_of (field_head name)
unfolding c_string
field_head-text name (ne, t, _, _, _, _) =
    ap (λ s. form_data ++ (b';' ∷ (codes " name=\"" ++ s)))
      (line_text ((name ++ (b'"' ∷ [])) ++ (b'\r' ∷ [])) (
        snoc-IsText (name ++ (b'"' ∷ [])) b'\r'
          (snoc-IsText name b'"' t (omega arith) (omega arith)) (omega arith) (omega arith)))

pub named_part-data :
    (u : Uploads) (m : Moment) (boundary name : Bytes) (file : Option Bytes) (rq : Request)
    → field rq "MULTI_PART_BOUNDARY" ≡ some boundary
    → named_part u m record { name = some name; file = file } rq
      ≡ done (part_task u m boundary rq (part_data u boundary name file rq.params rq.conn))
unfolding named_part
named_part-data u m boundary name file rq b = rw b refl

-- On a connection that no error ends, a part that is a field, with an honest name and value, puts the
-- value under the name and nothing else, and leaves the bytes behind the closing line to be read; that
-- line alone says whether the handler comes again. Lines longer than the buffer are excluded, and
-- further lines of the head must not start with a return and a newline.
pub decode_multi_part_request_data-field :
    (u : Uploads) (m : Moment) (rq : Request) (boundary name value closing later : Bytes)
    (hs : List Bytes)
    → IsOpen rq.conn.ssl rq.conn.input
    → field rq "MULTI_PART_BOUNDARY" ≡ some boundary
    → IsFieldName name
    → Fits (field_head name)
    → All (Passes (starts_with crlf)) hs
    → IsFieldValue value
    → Fits (value ++ (b'\r' ∷ []))
    → Stops (has_part boundary) closing
    → stream rq.conn.input
      ≡ field_head name ++ (b'\n' ∷ field_rest hs value (closing ++ (b'\n' ∷ later)))
    → (left : List Input) × (decode_multi_part_request_data_run u m rq
        ≡ done (
            part_task u m boundary rq
              (field_left name value closing rq.params (record rq.conn { input = left }))))
      × (stream left ≡ later)
      × IsOpen rq.conn.ssl left
unfolding decode_multi_part_request_data_run
decode_multi_part_request_data-field u m rq boundary name value closing later hs o b n f p v fv h
      e =
    let s =
      lines_until-Seen (has_part disposition) rq.conn [] (field_head name)
        (field_rest hs value (closing ++ (b'\n' ∷ later))) o tt (f, field_head-disposition name)
        e in
    let rq₁ = record rq { conn = record rq.conn { input = s.left } } in
    let (left, r, behind, o') =
      part_data-field_left u boundary name value closing later hs rq.params
        (record rq.conn { input = s.left }) s.open_still v fv p h s.behind in
    (
      left,
      rw (s.result, line_ne (field_head name), field_head-disposition name)
          (ap (λ l. named_part u m (part_name_of l) rq₁) (field_head-text name n)
            ∙ ap (λ p. named_part u m p rq₁) (part_name-field_head name n)
            ∙ named_part-data u m boundary name none rq₁ b
            ∙ ap (λ p. done (part_task u m boundary rq₁ p)) r),
      behind,
      o',
    )
