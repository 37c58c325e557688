-- ===== src/Base/Switch.antt =====
-- llvm::StringSwitch as a table of cases, of which the first that fits decides.
use mathlib.Core.Path.{◌≡◌, refl}
use mathlib.Core.Logic.{◌⊎◌, inl, inr}
use mathlib.Core.Bool.{Bool, true, false, ◌&&◌}
use mathlib.Core.List.{List, [], ◌∷◌, reverse}
use Prim.Native.String.{String}
use toy_riscv.Base.Tests.{◌==◌, if◌then◌else◌, Bool-cases}
use toy_riscv.Base.Texts.{Text, codes, text_eq}

-- StringRef::startswith and endswith.
abbrev pub has_prefix : Text → Text → Bool
has_prefix [] t = true
has_prefix (x ∷ xs) [] = false
has_prefix (x ∷ xs) (y ∷ ys) = (x == y) && has_prefix xs ys

abbrev pub has_suffix : Text → Text → Bool
has_suffix s t = has_prefix (reverse s) (reverse t)

pub data Pattern : Type 0 where
  exact starts_with ends_with : String → Pattern

abbrev pub fits : Pattern → Text → Bool
fits (exact s) t = text_eq t (codes s)
fits (starts_with s) t = has_prefix (codes s) t
fits (ends_with s) t = has_suffix (codes s) t

module _ {ℓ} {A : Type ℓ} where
  abbrev pub string_switch : List (Pattern × A) → A → Text → A
  string_switch [] default t = default
  string_switch ((p, a) ∷ cases) default t =
      let rest = string_switch cases default t in if fits p t then a else rest

  -- A property of each case, by recursion on the table.
  abbrev pub AllCases {κ} : (Pattern → A → Type κ) → List (Pattern × A) → Type κ
  AllCases P [] = Unit
  AllCases P ((p, a) ∷ cases) = P p a × AllCases P cases

  -- The result is the default, or that of a case which fits and has the property.
  pub string_switch_sound {κ} :
      (P : Pattern → A → Type κ) (cases : List (Pattern × A)) (default : A) (t : Text)
      → AllCases P cases
      → (string_switch cases default t ≡ default)
        ⊎ ((p : Pattern) × (fits p t ≡ true) × P p (string_switch cases default t))
  string_switch_sound P [] default t h = inl refl
  string_switch_sound P ((p, a) ∷ cases) default t h = elim (Bool-cases (fits p t)) [
    | inl e ↦ inr (p, e, rw e h.0)
    | inr e ↦ rw e (string_switch_sound P cases default t h.1)
  ]
