-- ===== src/Base/Results.antt =====
-- What holds of a result whenever there is one.
use mathlib.Core.Path.{◌≡◌, refl, subst}
use Prim.{Unit}
use mathlib.Core.Bool.{Bool, true, false}
use login_server.Base.Tests.{◌>>=◌, if◌then◌else◌}
use mathlib.Core.Option.{Option, none, some}

module _ {A : Type 0} where
  abbrev pub Always : (A → Type 0) → Option A → Type 0
  Always P none = Unit
  Always P (some a) = P a

  pub Always-map :
      {P Q : A → Type 0} → ((a : A) → P a → Q a) → (o : Option A) → Always P o → Always Q o
  Always-map f none h = h
  Always-map f (some a) h = f a h

  pub Always-if :
      (P : A → Type 0) (b : Bool) (x y : Option A)
      → Always P x
      → Always P y
      → Always P (if b then x else y)
  Always-if P true x y h k = h
  Always-if P false x y h k = k

  pub of_Always : (P : A → Type 0) (o : Option A) (a : A) → Always P o → o ≡ some a → P a
  of_Always P o a h e = subst (Always P) e h

-- That there is a result.
abbrev pub Ends : {A : Type 0} → Option A → Type 0
Ends none = ⊥
Ends (some a) = Unit

pub of_Ends : {A : Type 0} (o : Option A) → Ends o → (a : A) × (o ≡ some a)
of_Ends none h = absurd h
of_Ends (some a) h = (a, refl)

pub Always-bind :
    {A B : Type 0} (P : A → Type 0) (Q : B → Type 0) (f : A → Option B) (o : Option A)
    → Always P o
    → ((a : A) → P a → Always Q (f a))
    → Always Q (o >>= f)
Always-bind P Q f none h k = record {}
Always-bind P Q f (some a) h k = k a h

pub Always-then :
    {A B : Type 0} (Q : B → Type 0) (f : A → Option B) (o : Option A)
    → ((a : A) → Always Q (f a))
    → Always Q (o >>= f)
Always-then Q f none k = record {}
Always-then Q f (some a) k = k a
