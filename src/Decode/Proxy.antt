-- ===== src/Decode/Proxy.antt =====
-- decode.c: `check_proxy`.
pub mod Overrun
use ant_http.Decode.Rules.{Regex, group}
use ant_http.Prelude.{
  ℕ, ◌+◌, ltb, ◌==◌, Bytes, c_string, codes, ◌++◌, take, set, replicate, if◌then◌else◌, Option,
  none, some, List, length, drop, get_or,
}
use ant_http.Request.{
  proxify, Request, Moment, RequestTask, readable, writable, Outcome, done, overrun, ◌>>=◌,
  task_for, task_on, put_field, refuse,
}

abbrev pub proxy_pattern : Bytes
proxy_pattern = codes "^(https?)://([^:]+):([0-9]+)(.*)$"

-- A write to one byte of a buffer.
unfoldable pub store : ℕ → ℕ → Bytes → Outcome Bytes
store i b buff = if ltb i (length buff) then done (set buff i b) else overrun

-- `memcpy` of no more than the buffer holds, and the NUL behind what was copied.
unfoldable pub copy_part : Bytes → Bytes → Outcome Bytes
unfolding store
copy_part part buff =
    let size = if ltb (length part) (length buff) then length part else length buff in
    store size 0 (take size part ++ drop size buff)

-- `char buff[256]`; its first bytes do not matter, as each text in it ends in the NUL.
abbrev pub empty_buff : Bytes
empty_buff = replicate 256 0

-- The host and the port pass through the buffer one after the other.
unfoldable pub put_proxy : Bytes → List (ℕ × ℕ) → Bytes → Request → Outcome Request
unfolding put_field group copy_part c_string
put_proxy path ms query rq = copy_part (group path ms 2) empty_buff >>= (λ host.
    copy_part (group path ms 3) host >>= (λ port.
      let rq₁ =
        put_field "PROXY_PORT" (c_string port) (put_field "PROXY_HOST" (c_string host) rq) in
      let rq₂ = put_field "PROXY_PATH" (drop ((get_or ms 4 (0, 0)).0) path) rq₁ in
      done (put_field "PROXY_QUERY" query rq₂)))

unfoldable pub to_proxy : Outcome Request → Moment → Outcome (Option RequestTask)
unfolding task_on
to_proxy (done rq) m = done (some (task_on m (readable + writable) (some proxify) rq))
to_proxy overrun m = overrun
to_proxy Outcome.null_text m = Outcome.null_text
to_proxy Outcome.no_fuel m = Outcome.no_fuel

-- `none` where the path names no server.
unfoldable pub check_proxy : Regex → Moment → Request → Bytes → Bytes → Outcome (Option RequestTask)
unfolding put_proxy to_proxy task_for refuse
check_proxy regex m rq path query = elim (regex proxy_pattern path) [
  | none ↦ done none
  | some ms ↦
      if length (group path ms 1) == 5
      then done (some (task_for m none (refuse 503 "Service Unavailable" rq)))
      else to_proxy (put_proxy path ms query rq) m
]
