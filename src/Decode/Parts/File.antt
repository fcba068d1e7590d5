-- ===== src/Decode/Parts/File.antt =====
-- decode.c: `decode_multi_part_request_data` on a part that is a file.
use ant_http.Decode.Parts.{
  Uploads, Part, disposition, put_upload, upload_path, to_disk, file_part, part_data, part_task,
  named_part, part_name_of, write_lines, write_result, truncated,
  decode_multi_part_request_data_run,
}
use ant_http.Decode.Parts.Field.{named_part-data, empty_line-Stops, line_ne}
use ant_http.Decode.Parts.Lines.{line_of, all_lines, Passes, Stops, lines_until-Seen}
use ant_http.Dictionary.{Dictionary}
use ant_http.Handle.{Input, Output, Conn}
use ant_http.Handle.Response.{crlf}
use ant_http.Handle.Stream.{stream, IsOpen}
use ant_http.Prelude.{
  ℕ, suc, ◌+◌, ◌<◌, ◌^◌, pos, negsuc, ◌+ℤ◌, Bytes, Bool, c_string, starts_with, has_part, true,
  some, List, [], ◌∷◌, ◌++◌, All, length, length-append, append_assoc, map, take, ◌≡◌, refl, ap,
  ◌∙◌, arith,
}
use ant_http.Request.{Request, Moment, done, field}
use ant_http.Utils.Guard.{guard_write, guard_write-prefix}

-- No write of a line fails.
abbrev pub Writes : (ℕ → List Output) → ℕ → List Bytes → Type 0
Writes disk n [] = Unit
Writes disk n (l ∷ ls) = ((guard_write (line_of l) (disk n)).1 ≡ true) × Writes disk (suc n) ls

sum_lengths : (s t : Bytes) → pos (length s) +ℤ pos (length t) ≡ pos (length (s ++ t))
sum_lengths s t = ground (arith, length-append s t)

written : (w : Bytes × Bool) (s : Bytes) → w.1 ≡ true → w.0 ≡ s → w ≡ (s, true)
written (t, b) s e h = (λ i. (h i, e i))

write_lines-all_lines :
    (disk : ℕ → List Output) (n : ℕ) (ls : List Bytes)
    → All (λ l. length l + 1 < 2 ^ 31) ls
    → Writes disk n ls
    → write_lines disk n (map line_of ls) ≡ (all_lines ls, pos (length (all_lines ls)))
unfolding write_lines write_result
write_lines-all_lines disk n [] b h = refl
write_lines-all_lines disk n (l ∷ ls) (b, bs) (h, hs) =
    let w = written (guard_write (line_of l) (disk n)) (line_of l) h (
      (guard_write-prefix (line_of l) (disk n) (omega (arith, length-append l (b'\n' ∷ [])))).0
        h) in
    rw (w, write_lines-all_lines disk (suc n) ls bs hs)
      (λ i. (
        append_assoc l (b'\n' ∷ []) (all_lines ls) i,
        (sum_lengths (line_of l) (all_lines ls)
              ∙ ap (λ s. pos (length s)) (append_assoc l (b'\n' ∷ []) (all_lines ls)))
            i,
      ))

-- The part behind its first line.
abbrev pub file_rest : List Bytes → List Bytes → Bytes → Bytes
file_rest hs ls rest = all_lines hs ++ ((b'\r' ∷ []) ++ (b'\n' ∷ (all_lines ls ++ rest)))

-- The part that a file with `content` leaves.
abbrev pub file_left : Bytes → Bytes → Bytes → Bytes → Bytes → Dictionary Bytes → Conn → Part
file_left name file path content closing params c = record {
  params = put_upload name file path (pos (length content)) params;
  conn = c;
  line = some (c_string (line_of closing));
  file = some (path, content);
}

take_front : (s t : Bytes) → take (length s) (s ++ t) ≡ s
take_front [] t = refl
take_front (c ∷ s) t = ap (λ r. c ∷ r) (take_front s t)

less_two : (s : Bytes) → pos (length (s ++ crlf)) +ℤ negsuc 1 ≡ pos (length s)
less_two s = ground (arith, length-append s crlf)

short_lines :
    (boundary : Bytes) (ls : List Bytes)
    → All (Passes (has_part boundary)) ls
    → All (λ l. length l + 1 < 2 ^ 31) ls
short_lines boundary [] p = tt
short_lines boundary (l ∷ ls) (((n, fits), h), p) = (omega (arith, fits), short_lines boundary ls p)

to_disk-file_left :
    (disk : ℕ → List Output) (path boundary name file content closing later : Bytes)
    (ls : List Bytes) (params : Dictionary Bytes) (c : Conn)
    → IsOpen c.ssl c.input
    → All (Passes (has_part boundary)) ls
    → Stops (has_part boundary) closing
    → Writes disk 0 ls
    → all_lines ls ≡ content ++ crlf
    → stream c.input ≡ all_lines ls ++ (closing ++ (b'\n' ∷ later))
    → (left : List Input) × (to_disk (some disk) path boundary name file params c
        ≡ file_left name file path content closing params (record c { input = left }))
      × (stream left ≡ later)
      × IsOpen c.ssl left
unfolding to_disk truncated
to_disk-file_left disk path boundary name file content closing later ls params c o p h w e s =
    let r = lines_until-Seen (has_part boundary) c ls closing later o p h s in
    (
      r.left,
      rw
          (
            r.result,
            write_lines-all_lines disk 0 ls (short_lines boundary ls p) w,
            e,
            less_two content,
            take_front content crlf,
          )
          refl,
      r.behind,
      r.open_still,
    )

part_data-file_left :
    (u : Uploads) (disk : ℕ → List Output) (boundary name file content closing later : Bytes)
    (hs ls : List Bytes) (params : Dictionary Bytes) (c : Conn)
    → IsOpen c.ssl c.input
    → All (Passes (starts_with crlf)) hs
    → All (Passes (has_part boundary)) ls
    → Stops (has_part boundary) closing
    → u.open_file (upload_path u file) ≡ some disk
    → Writes disk 0 ls
    → all_lines ls ≡ content ++ crlf
    → stream c.input ≡ file_rest hs ls (closing ++ (b'\n' ∷ later))
    → (left : List Input) × (part_data u boundary name (some file) params c
        ≡ file_left name file
            (upload_path u file)
            content
            closing
            params
            (record c { input = left }))
      × (stream left ≡ later)
      × IsOpen c.ssl left
unfolding part_data file_part
part_data-file_left u disk boundary name file content closing later hs ls params c o q p h d w e s =
    let t =
      lines_until-Seen (starts_with crlf) c hs (b'\r' ∷ [])
        (all_lines ls ++ (closing ++ (b'\n' ∷ later))) o q empty_line-Stops s in
    let path = upload_path u file in
    let (left, r, behind, o') =
      to_disk-file_left disk path boundary name file content closing later ls params
        (record c { input = t.left }) t.open_still p h w e t.behind in
    (
      left,
      ap (λ q. file_part u boundary name file params q.2) t.result
          ∙ ap (λ f. to_disk f path boundary name file params (record c { input = t.left })) d
          ∙ r,
      behind,
      o',
    )

-- On a connection that no error ends, a part whose head names a file is stored: if the path can be
-- opened and no write fails, the file holds the bytes between the empty line and the last return and
-- newline before the closing line, the parameters hold its name, path, size and extension, and the
-- bytes behind the closing line are left. No line is longer than the buffer, none of the file holds
-- the boundary, and further lines of the head do not start with a return and a newline.
pub decode_multi_part_request_data-file :
    (u : Uploads) (m : Moment) (rq : Request) (disk : ℕ → List Output)
    (boundary head name file content closing later : Bytes) (hs ls : List Bytes)
    → IsOpen rq.conn.ssl rq.conn.input
    → field rq "MULTI_PART_BOUNDARY" ≡ some boundary
    → Stops (has_part disposition) head
    → part_name_of (c_string (line_of head)) ≡ record { name = some name; file = some file }
    → All (Passes (starts_with crlf)) hs
    → All (Passes (has_part boundary)) ls
    → Stops (has_part boundary) closing
    → u.open_file (upload_path u file) ≡ some disk
    → Writes disk 0 ls
    → all_lines ls ≡ content ++ crlf
    → stream rq.conn.input ≡ head ++ (b'\n' ∷ file_rest hs ls (closing ++ (b'\n' ∷ later)))
    → (left : List Input) × (decode_multi_part_request_data_run u m rq
        ≡ done (
            part_task u m boundary rq (
              file_left name file
                (upload_path u file)
                content
                closing
                rq.params
                (record rq.conn { input = left }))))
      × (stream left ≡ later)
      × IsOpen rq.conn.ssl left
unfolding decode_multi_part_request_data_run
decode_multi_part_request_data-file u m rq disk boundary head name file content closing later hs ls
      o b (f, hd) n q p h d w e s =
    let t =
      lines_until-Seen (has_part disposition) rq.conn [] head
        (file_rest hs ls (closing ++ (b'\n' ∷ later))) o tt (f, hd) s in
    let rq₁ = record rq { conn = record rq.conn { input = t.left } } in
    let (left, r, behind, o') =
      part_data-file_left u disk boundary name file content closing later hs ls rq.params rq₁.conn
        t.open_still q p h d w e t.behind in
    (
      left,
      rw (t.result, line_ne head, hd)
          (ap (λ p. named_part u m p rq₁) n
            ∙ named_part-data u m boundary name (some file) rq₁ b
            ∙ ap (λ p. done (part_task u m boundary rq₁ p)) r),
      behind,
      o',
    )
