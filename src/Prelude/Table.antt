-- ===== src/Prelude/Table.antt =====
-- Facts about small numbers by evaluation of every case.
use Prim.Native.Nat.{ℕ, zero, suc, ◌<◌}
use mathlib.Core.Bool.{Bool, true, ◌&&◌}
use mathlib.Core.Path.{◌≡◌}
use native.Mathlib.Omega.{arith}

-- `test` at every number below `limit`
unfoldable pub check_below : (limit : ℕ) (test : ℕ → Bool) → Bool
check_below zero test = true
check_below (suc limit) test = test limit && check_below limit test

pub check_below_lem :
    (limit : ℕ) (test : ℕ → Bool) (byte : ℕ)
    → check_below limit test ≡ true
    → byte < limit
    → test byte ≡ true
unfolding check_below
check_below_lem zero test byte all small = absurd (omega arith)
check_below_lem (suc limit) test byte all small = ground (arith, check_below_lem limit test byte)
