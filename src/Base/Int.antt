-- ===== src/Base/Int.antt =====
-- Signed integers over the native numbers, and Go's `time.Duration` (an int64 of nanoseconds) with
-- the saturating difference of two instants, `time.Time.Sub`.
use Prim.Native.Nat.{ℕ, suc, ◌+◌, ◌-◌, ◌≤◌}
use mathlib.Core.Path.{◌≡◌}
use mathlib.Core.Bool.{Bool, false}
use native.Mathlib.Omega.{arith}
use propagation_controller.Base.Tests.{ltb, leb, if◌then◌else◌}

-- `negsuc n` is -(n + 1).
pub data ℤ : Type 0 where
  pos : ℕ → ℤ
  negsuc : ℕ → ℤ

abbrev pub pos_part : ℤ → ℕ
pos_part (pos n) = n
pos_part (negsuc n) = 0

abbrev pub neg_part : ℤ → ℕ
neg_part (pos n) = 0
neg_part (negsuc n) = suc n

abbrev sub_ℕ : ℕ → ℕ → ℤ
sub_ℕ a b = if leb b a then pos (a - b) else negsuc (b - a - 1)

infixl 65 ◌-ℤ◌
unfoldable pub ◌-ℤ◌ : ℤ → ℤ → ℤ
a -ℤ b = sub_ℕ (pos_part a + neg_part b) (neg_part a + pos_part b)

infix 50 ◌≤ℤ◌
abbrev pub ◌≤ℤ◌ : ℤ → ℤ → Type 0
a ≤ℤ b = pos_part a + neg_part b ≤ pos_part b + neg_part a

abbrev pub ltb_ℤ : ℤ → ℤ → Bool
ltb_ℤ a b = ltb (pos_part a + neg_part b) (pos_part b + neg_part a)

pub -ℤ_parts :
    (a b : ℤ)
    → pos_part (a -ℤ b) + neg_part a + pos_part b ≡ neg_part (a -ℤ b) + pos_part a + neg_part b
unfolding ◌-ℤ◌
-ℤ_parts a b = ground arith

pub eq_of_parts : (a b : ℤ) → pos_part a + neg_part b ≡ pos_part b + neg_part a → a ≡ b
eq_of_parts a b h = ground arith

pub ltb_ℤ→le : (a b : ℤ) → ltb_ℤ a b ≡ false → b ≤ℤ a
ltb_ℤ→le a b h = ground arith

pub le→ltb_ℤ : (a b : ℤ) → b ≤ℤ a → ltb_ℤ a b ≡ false
le→ltb_ℤ a b h = ground arith

pub le_trans_ℤ : (a b c : ℤ) → a ≤ℤ b → b ≤ℤ c → a ≤ℤ c
le_trans_ℤ a b c h k = omega arith

pub ruleset int_laws = (arith, -ℤ_parts, eq_of_parts)

-- The least and the greatest `time.Duration`: -2^63 and 2^63 - 1.
abbrev pub max_duration : ℕ
max_duration = 9223372036854775807

-- A value beyond the range of int64 is replaced by the nearest end of it.
unfoldable pub saturate : ℤ → ℤ
saturate (pos n) = if leb n max_duration then pos n else pos max_duration
saturate (negsuc n) = if leb n max_duration then negsuc n else negsuc max_duration

-- `t.Sub(u)`
unfoldable pub sub_time : ℤ → ℤ → ℤ
unfolding ◌-ℤ◌ saturate
sub_time t u = saturate (t -ℤ u)

pub saturate_mono : (a b : ℤ) → a ≤ℤ b → saturate a ≤ℤ saturate b
unfolding saturate
saturate_mono (pos a) (pos b) h = ground arith
saturate_mono (pos a) (negsuc b) h = absurd (omega arith)
saturate_mono (negsuc a) (pos b) h = ground arith
saturate_mono (negsuc a) (negsuc b) h = ground arith

pub sub_time_mono : (t t' u : ℤ) → t ≤ℤ t' → sub_time t u ≤ℤ sub_time t' u
unfolding sub_time
sub_time_mono t t' u h = saturate_mono (t -ℤ u) (t' -ℤ u) (omega int_laws)
