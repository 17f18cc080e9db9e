-- ===== src/Prelude/Words.antt =====
-- Machine words: Rust's unsigned arithmetic, whose overflow and underflow panic in a checked build.
use Prim.Native.Nat.{ℕ, ◌-◌, ◌*◌, ◌≤◌}
use mathlib.Core.Path.{◌≡◌}
use mathlib.Core.Option.{Option, none, some}
use native.Mathlib.Omega.{arith}
use capture_room.Prelude.Tests.{ltb, leb, if◌then◌else◌}

abbrev pub u32_mod : ℕ
u32_mod = 4294967296

-- `none` is the panic.
unfoldable pub sub? : ℕ → ℕ → Option ℕ
sub? a b = if leb b a then some (a - b) else none

unfoldable pub mul32? : ℕ → ℕ → Option ℕ
mul32? a b = if ltb (a * b) u32_mod then some (a * b) else none

infixl 5 ◌>>=◌
abbrev pub ◌>>=◌ {ℓ κ} : {A : Type ℓ} {B : Type κ} → Option A → (A → Option B) → Option B
none >>= f = none
some a >>= f = f a

pub sub?-eq_some : (b a : ℕ) → b ≤ a → sub? a b ≡ some (a - b)
unfolding sub?
sub?-eq_some b a h = ground arith
