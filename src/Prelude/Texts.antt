-- ===== src/Prelude/Texts.antt =====
-- The order of Go's texts, `text_lt`.
use Prim.Native.Char.{Char, code}
use Prim.Native.String.compare as compare_clauses
use Prim.Native.String.{String, [], ◌∷◌}
use mathlib.Core.Path.{◌≡◌, refl}
use mathlib.Core.Bool.{true, false, ◌||◌, ◌&&◌}
use native.Mathlib.Omega.{arith}
use netforge.Prelude.Tests.{text_lt, ltb, nat_beq}

-- No text is less than the empty one, which is less than any other.
text_lt-nil_right : (s : String) → text_lt s [] ≡ false
text_lt-nil_right [] = refl
text_lt-nil_right (c ∷ s) = rw (text_lt, compare_clauses.cons-nil c s) refl

text_lt-nil_left : (d : Char) (t : String) → text_lt [] (d ∷ t) ≡ true
text_lt-nil_left d t = rw (text_lt, compare_clauses.nil-cons d t) refl

text_lt-cons :
    (c d : Char) (s t : String)
    → text_lt (c ∷ s) (d ∷ t)
      ≡ (ltb (code c) (code d) || (nat_beq (code c) (code d) && text_lt s t))
text_lt-cons c d s t = rw (text_lt, compare_clauses.cons-cons c d s t) ground arith

pub text_lt_asym : (a b : String) → text_lt a b ≡ true → text_lt b a ≡ false
text_lt_asym [] b h = text_lt-nil_right b
text_lt_asym (c ∷ s) [] h = ground (arith, text_lt-nil_right (c ∷ s))
text_lt_asym (c ∷ s) (d ∷ t) h =
    ground (arith, text_lt-cons c d s t, text_lt-cons d c t s, text_lt_asym s t)

-- A text between lies above the one or below the other.
pub text_lt_between : (a b c : String) → text_lt a c ≡ true → (text_lt a b || text_lt b c) ≡ true
text_lt_between a b [] h = ground (arith, text_lt-nil_right a)
text_lt_between a [] (e ∷ u) h = rw (text_lt-nil_right a, text_lt-nil_left e u) refl
text_lt_between [] (d ∷ t) (e ∷ u) h = rw (text_lt-nil_left d t) refl
text_lt_between (c ∷ s) (d ∷ t) (e ∷ u) h =
    ground (
      arith,
      text_lt-cons c d s t,
      text_lt-cons d e t u,
      text_lt-cons c e s u,
      text_lt_between s t u,
    )

pub text_lt_irrefl : (a : String) → text_lt a a ≡ false
text_lt_irrefl a = ground (arith, text_lt_asym a a)
