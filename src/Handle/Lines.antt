-- ===== src/Handle/Lines.antt =====
-- lib/handle.c: what `read_buf` returns.
use ant_http.Handle.{Input, line_from, Conn, antd_recv, read_line, read_buf}
use ant_http.Handle.Stream.{stream, antd_recv-stream}
use ant_http.Prelude.{
  ℕ, zero, suc, ◌-◌, ◌≤◌, ◌==◌, Bytes, false, List, [], ◌∷◌, ◌++◌, length, Bool-cases, inl, inr,
  ◌≡◌, ◌≢◌, refl, ap, ◌∙◌, arith,
}

-- A newline stands at the end, if anywhere.
unfoldable pub IsLine : Bytes → Type 0
IsLine [] = Unit
IsLine (b ∷ []) = Unit
IsLine (b ∷ b' ∷ s) = (b ≢ b'\n') × IsLine (b' ∷ s)

cons-IsLine : (b : ℕ) (s : Bytes) → b == b'\n' ≡ false → IsLine s → IsLine (b ∷ s)
unfolding IsLine
cons-IsLine b [] h l = tt
cons-IsLine b (x ∷ s) h l = (ground arith, l)

-- What a call that starts with `q` to come reads of it.
record LineRead (room : ℕ) (q : List Input) (line : Bytes) (q' : List Input) : Type 0 where
  split : stream q ≡ line ++ stream q'
  fits : length line ≤ room
  is_line : IsLine line

line_from-LineRead :
    (room : ℕ) (q : List Input) (got : Bytes) (c : Conn) (later : Bytes × Conn)
    → stream q ≡ got ++ stream c.input
    → length got ≤ 1
    → LineRead room c.input later.0 later.1.input
    → let (line, c') = line_from got c later in LineRead (suc room) q line c'.input
unfolding line_from
line_from-LineRead room q [] c later e h r = record {
  split = e;
  fits = omega arith;
  is_line = unfold IsLine in tt;
}
line_from-LineRead room q (b ∷ b' ∷ s) c later e h r = absurd (omega arith)
line_from-LineRead room q (b ∷ []) c (line, c') e h r = elim (Bool-cases (b == b'\n')) [
  | inl y ↦ rw y record { split = e; fits = omega arith; is_line = unfold IsLine in tt }
  | inr n ↦ rw n record {
    split = e ∙ ap (λ s. b ∷ s) r.split;
    fits = omega (arith, r.fits);
    is_line = cons-IsLine b line n r.is_line;
  }
]

read_line-LineRead :
    (room : ℕ) (c : Conn) → let (line, c') = read_line room c in LineRead room c.input line c'.input
unfolding read_line
read_line-LineRead zero c = record {
  split = refl;
  fits = omega arith;
  is_line = unfold IsLine in tt;
}
read_line-LineRead (suc room) c =
    let (n, got, c') = antd_recv 1 c in
    let (e, h, _) = antd_recv-stream 1 c in
    line_from-LineRead room c.input got c' _ e h (read_line-LineRead room c')

-- What `read_buf` returns is the next part of what is to come, shorter than the buffer if it is not
-- empty, with no newline but at its end. The bytes behind it stay to be read.
pub read_buf-LineRead :
    (size : ℕ) (c : Conn)
    → let (line, c') = read_buf size c in
      (stream c.input ≡ line ++ stream c'.input) × (length line ≤ size - 1) × IsLine line
unfolding read_buf
read_buf-LineRead size c = let r = read_line-LineRead (size - 1) c in (r.split, r.fits, r.is_line)
