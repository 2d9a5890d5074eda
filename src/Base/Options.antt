-- ===== src/Base/Options.antt =====
-- The two constructors of an option.
use mathlib.Core.Path.{◌≡◌}
use mathlib.Core.Option.{none, some}

module _ {ℓ} {A : Type ℓ} {a : A} where
  pub none-ne-some : none ≡ some a → ⊥
  none-ne-some e = cc

  pub some_injective : {b : A} → some a ≡ some b → a ≡ b
  some_injective e = cc
