-- ===== src/Prelude/Table.antt =====
-- Facts about all bytes, checked by evaluation of a test over a range of numbers.
use Prim.Native.Nat.{ℕ, zero, suc, ◌+◌, ◌<◌}
use mathlib.Core.Path.{◌≡◌, subst}
use mathlib.Core.Bool.{Bool, true, false}
use native.Mathlib.Omega.{arith}
use ant_http.Prelude.Tests.{if◌then◌else◌}

-- Tests `first`, `first + 1` and so on, `count` numbers in all.
unfoldable pub scan : (ℕ → Bool) → ℕ → ℕ → Bool
scan test first zero = true
scan test first (suc count) =
    let rest = scan test (suc first) count in if test first then rest else false

scan_at :
    (test : ℕ → Bool) (first count k : ℕ)
    → scan test first count ≡ true
    → k < count
    → test (first + k) ≡ true
unfolding scan
scan_at test first zero k passed h = absurd (omega arith)
scan_at test first (suc count) zero passed h = ground arith
scan_at test first (suc count) (suc k) passed h = ground (arith, scan_at test (suc first) count k)

-- A test that passes on a range from 0 holds of every number below its end.
pub scan_sound :
    (test : ℕ → Bool) (count k : ℕ) → scan test 0 count ≡ true → k < count → test k ≡ true
scan_sound test count k passed h =
    subst (λ x. test x ≡ true) (omega arith) (scan_at test 0 count k passed h)
