-- ===== src/Prelude/Strings.antt =====
-- Go strings as the list of their bytes, with a Boolean equality.
use Prim.Native.Nat.{ℕ}
use Prim.Native.Char.{code}
use Prim.Native.String.{String}
use mathlib.Core.Path.{◌≡◌, refl}
use mathlib.Core.Logic.{◌↔◌, ◌≢◌, inl, inr}
use mathlib.Core.Bool.{Bool, true, false, ◌&&◌, ◌||◌}
use mathlib.Core.List.{List, [], ◌∷◌}
use native.Mathlib.Omega.{arith}
use dispatchhub.Prelude.Tests.{◌==◌, if◌then◌else◌}
use dispatchhub.Prelude.Lists.{Occurs}

abbrev pub Text : Type 0
Text = List ℕ

-- A literal; its code points are its bytes, since the source's constants are ASCII.
abbrev pub codes : String → Text
codes String.[] = []
codes (String.◌∷◌ c s) = code c ∷ codes s

unfoldable pub same : Text → Text → Bool
same [] [] = true
same (x ∷ xs) (y ∷ ys) = x == y && same xs ys
same _ _ = false

same→eq : (a b : Text) → same a b ≡ true → a ≡ b
unfolding same
same→eq [] [] h = refl
same→eq [] (y ∷ ys) h = ground arith
same→eq (x ∷ xs) [] h = ground arith
same→eq (x ∷ xs) (y ∷ ys) h = ground (arith, same→eq xs ys)

pub same_refl : (a : Text) → same a a ≡ true
unfolding same
same_refl [] = refl
same_refl (x ∷ xs) = ground (arith, same_refl xs)

pub same_iff : (a b : Text) → (same a b ≡ true) ↔ (a ≡ b)
same_iff a b = (same→eq a b, λ e. ground (arith, same_refl b))

pub same_ne : (a b : Text) → a ≢ b → same a b ≡ false
same_ne a b h = ground (arith, same_iff a b)

abbrev pub is_empty : Text → Bool
is_empty [] = true
is_empty (x ∷ xs) = false

unfoldable pub contains : Text → List Text → Bool
contains a [] = false
contains a (x ∷ xs) = same x a || contains a xs

pub Occurs-contains : (a : Text) (xs : List Text) → Occurs a xs → contains a xs ≡ true
unfolding contains
Occurs-contains a [] h = elim h [ ]
Occurs-contains a (x ∷ xs) (inl e) = ground (arith, same_iff x a)
Occurs-contains a (x ∷ xs) (inr h) = ground (arith, Occurs-contains a xs h)

pub contains-Occurs : (a : Text) (xs : List Text) → contains a xs ≡ true → Occurs a xs
unfolding contains
contains-Occurs a [] h = cc
contains-Occurs a (x ∷ xs) h = ground (arith, same_iff x a, contains-Occurs a xs)

-- set[x] = struct{}{} for each of the texts, where a set is a list without repetition
unfoldable pub add_all : List Text → List Text → List Text
add_all [] us = us
add_all (t ∷ ts) us = add_all ts (if contains t us then us else t ∷ us)

pub contains-add_all :
    (t : Text) (ts us : List Text) → contains t (add_all ts us) ≡ (contains t ts || contains t us)
unfolding add_all contains
contains-add_all t [] us = refl
contains-add_all t (x ∷ ts) us =
    ground (arith, contains-add_all t ts us, contains-add_all t ts (x ∷ us), same_iff x t)

unfoldable pub starts_with : Text → Text → Bool
starts_with [] s = true
starts_with (x ∷ p) [] = false
starts_with (x ∷ p) (y ∷ s) = x == y && starts_with p s

-- The text occurs inside the other.
unfoldable pub has_infix : Text → Text → Bool
unfolding starts_with
has_infix p [] = starts_with p []
has_infix p (x ∷ s) = starts_with p (x ∷ s) || has_infix p s
