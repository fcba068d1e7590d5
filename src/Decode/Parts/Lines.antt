-- ===== src/Decode/Parts/Lines.antt =====
-- decode.c: the loops over lines of `decode_multi_part_request_data`, on a connection that no error
-- ends.
use ant_http.Decode.Parts.{lines_loop, lines_until}
use ant_http.Handle.{Input, Conn, buff_len}
use ant_http.Handle.NextLine.{read_buf-Took}
use ant_http.Handle.Stream.{stream, IsOpen}
use ant_http.Prelude.{
  ℕ, zero, suc, ◌+◌, ◌<◌, ◌≤◌, ◌==◌, Bytes, c_string, Bool, true, false, List, [], ◌∷◌, ◌++◌, All,
  length, length-append, append_assoc, map, ◌≡◌, ◌≢◌, refl, ap, ◌∙◌, arith,
}

-- A line with its newline, and lines behind each other.
abbrev pub line_of : Bytes → Bytes
line_of s = s ++ (b'\n' ∷ [])

abbrev pub all_lines : List Bytes → Bytes
all_lines [] = []
all_lines (s ∷ ss) = s ++ (b'\n' ∷ all_lines ss)

-- The buffer has room for the line.
abbrev pub Fits : Bytes → Type 0
Fits s = All (λ b. b ≢ b'\n') s × (length s + 1 < buff_len)

abbrev pub Passes : (Bytes → Bool) → Bytes → Type 0
Passes stop s = Fits s × (stop (c_string (line_of s)) ≡ false)

abbrev pub Stops : (Bytes → Bool) → Bytes → Type 0
Stops stop s = Fits s × (stop (c_string (line_of s)) ≡ true)

-- What a loop returned on `c`: the lines, the one that ended it, and what is still to come.
pub record Seen (c : Conn) (lines : List Bytes) (last later : Bytes) (r : List Bytes × Bytes × Conn)
    : Type 0 where
  pub left : List Input
  pub result : r ≡ (map line_of lines, line_of last, record c { input = left })
  pub behind : stream left ≡ later
  pub open_still : IsOpen c.ssl left

line_ne : (s : Bytes) → length (line_of s) == 0 ≡ false
line_ne [] = refl
line_ne (b ∷ s) = ground arith

lines_loop-Seen :
    (fuel : ℕ) (stop : Bytes → Bool) (c : Conn) (lines : List Bytes) (last later : Bytes)
    → IsOpen c.ssl c.input
    → All (Passes stop) lines
    → Stops stop last
    → stream c.input ≡ all_lines lines ++ (last ++ (b'\n' ∷ later))
    → length lines < fuel
    → Seen c lines last later (lines_loop fuel stop c)
unfolding lines_loop
lines_loop-Seen zero stop c lines last later o p ((n, f), h) e l = absurd (omega arith)
lines_loop-Seen (suc fuel) stop c [] last later o p ((n, f), h) e l =
    let t = read_buf-Took buff_len c last later o n f e in
    record {
      left = t.left;
      result = rw (t.result, line_ne last, h) refl;
      behind = t.behind;
      open_still = t.open_still;
    }
lines_loop-Seen (suc fuel) stop c (s ∷ lines) last later o (((n', f'), h'), p) ((n, f), h) e l =
    let rest = all_lines lines ++ (last ++ (b'\n' ∷ later)) in
    let t =
      read_buf-Took buff_len c s rest o n' f' (e ∙ append_assoc s (b'\n' ∷ all_lines lines) _) in
    let c' = record c { input = t.left } in
    let r =
      lines_loop-Seen fuel stop c' lines last later t.open_still p ((n, f), h) t.behind
        (omega arith) in
    record {
      left = r.left;
      result = rw (t.result, line_ne s, h') (ap (λ q. (line_of s ∷ q.0, q.1, q.2)) r.result);
      behind = r.behind;
      open_still = r.open_still;
    }

length-all_lines : (lines : List Bytes) (s : Bytes) → length lines ≤ length (all_lines lines ++ s)
length-all_lines [] s = omega arith
length-all_lines (l ∷ lines) s = omega (
  arith,
  ap length (append_assoc l (b'\n' ∷ all_lines lines) s),
  length-append l (b'\n' ∷ (all_lines lines ++ s)),
  length-all_lines lines s,
)

-- The loop passes the lines that do not stop it, and ends at the first that does; what comes behind
-- that one stays to be read.
pub lines_until-Seen :
    (stop : Bytes → Bool) (c : Conn) (lines : List Bytes) (last later : Bytes)
    → IsOpen c.ssl c.input
    → All (Passes stop) lines
    → Stops stop last
    → stream c.input ≡ all_lines lines ++ (last ++ (b'\n' ∷ later))
    → Seen c lines last later (lines_until stop c)
unfolding lines_until
lines_until-Seen stop c lines last later o p h e =
    lines_loop-Seen (suc (length (stream c.input))) stop c lines last later o p h e
      (omega (arith, ap length e, length-all_lines lines (last ++ (b'\n' ∷ later))))
