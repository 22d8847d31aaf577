-- ===== src/Common/Options.antt =====
-- Results that may be missing.
use mathlib.Core.Option.{Option, none, some}

-- What a computation gives, if it gives something.
abbrev pub Always {ℓ} : {A : Type ℓ} → (A → Type 0) → Option A → Type 0
Always P none = Unit
Always P (some a) = P a
