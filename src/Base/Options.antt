-- ===== src/Base/Options.antt =====
-- Options in sequence, as `?` and a panic pass them on.
use mathlib.Core.Path.{◌≡◌, ap, ◌∙◌}
use mathlib.Core.Option.{Option, none, some}

infixl 5 ◌>>=◌
abbrev pub ◌>>=◌ {ℓ κ} : {A : Type ℓ} {B : Type κ} → Option A → (A → Option B) → Option B
none >>= f = none
some a >>= f = f a

-- A step that succeeds hands its value on.
pub some_step :
    {A B : Type 0} (m : Option A) (f : A → Option B) {a : A} {z : Option B}
    → m ≡ some a
    → f a ≡ z
    → (m >>= f) ≡ z
some_step m f e k = ap (λ t. t >>= f) e ∙ k
