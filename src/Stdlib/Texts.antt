-- ===== src/Stdlib/Texts.antt =====
-- The order of native texts, as a database compares them (`<` on a column of texts).
use Prim.Native.Nat.{Ordering, compare as compare_ℕ}
use Prim.Native.Char.{code, Char}
use Prim.Native.String.compare
use Prim.Native.String.{compare, then}
use wiregate.Prelude.{
  ap, String, ℕ, Bool, true, false, ◌≡◌, refl, ◌||◌, ◌&&◌, ◌==◌, ltb, arith, sym, ◌∙◌,
}

abbrev pub less : Ordering → Bool
less Ordering.lt = true
less _ = false

-- `a < b`
unfoldable pub text_before : String → String → Bool
text_before a b = less (compare a b)

abbrev equal : Ordering → Bool
equal Ordering.eq = true
equal _ = false

less-then : (o p : Ordering) → less (then o p) ≡ less o || (equal o && less p)
less-then Ordering.lt p = refl
less-then Ordering.eq p = refl
less-then Ordering.gt p = refl

never : ◌≡◌ {A = Bool} true false → ⊥
never h = cc

step :
    (c : Char) (s : String) (d : Char) (t : String)
    → text_before (String.◌∷◌ c s) (String.◌∷◌ d t)
      ≡ ltb (code c) (code d) || (code c == code d && text_before s t)
unfolding text_before
step c s d t =
    ap less (compare.cons-cons c d s t) ∙ less-then (compare_ℕ (code c) (code d)) (compare s t)

either_less :
    (x y z : ℕ) (p q r : Bool)
    → ltb y x || (y == x && p) ≡ false
    → ltb z y || (z == y && q) ≡ false
    → (p ≡ false → q ≡ false → r ≡ false)
    → ltb z x || (z == x && r) ≡ false
either_less x y z true q r h k f = ground arith
either_less x y z false true r h k f = ground arith
either_less x y z false false r h k f = ground (arith, f refl refl)

-- A text that is not before a second one, which is not before a third, is not before the third.
pub text_before_trans :
    (a b c : String) → text_before b a ≡ false → text_before c b ≡ false → text_before c a ≡ false
unfolding text_before
text_before_trans String.[] b String.[] h k = ap less compare.nil-nil
text_before_trans String.[] String.[] (String.◌∷◌ z c) h k = ap less (compare.cons-nil z c)
text_before_trans String.[] (String.◌∷◌ y b) (String.◌∷◌ z c) h k = ap less (compare.cons-nil z c)
text_before_trans (String.◌∷◌ x a) String.[] c h k =
    absurd (never (sym (ap less (compare.nil-cons x a)) ∙ h))
text_before_trans (String.◌∷◌ x a) (String.◌∷◌ y b) String.[] h k =
    absurd (never (sym (ap less (compare.nil-cons y b)) ∙ k))
text_before_trans (String.◌∷◌ x a) (String.◌∷◌ y b) (String.◌∷◌ z c) h k =
    step z c x a
    ∙ either_less (code x) (code y) (code z) (text_before b a) (text_before c b) (text_before c a)
        (sym (step y b x a) ∙ h) (sym (step z c y b) ∙ k) (text_before_trans a b c)

less_asym :
    (x y : ℕ) (p q : Bool)
    → ltb x y || (x == y && p) ≡ true
    → (p ≡ true → q ≡ false)
    → ltb y x || (y == x && q) ≡ false
less_asym x y true q h f = ground (arith, f refl)
less_asym x y false q h f = ground arith

pub text_before_asym : (a b : String) → text_before a b ≡ true → text_before b a ≡ false
unfolding text_before
text_before_asym String.[] String.[] h = ap less compare.nil-nil
text_before_asym String.[] (String.◌∷◌ y b) h = ap less (compare.cons-nil y b)
text_before_asym (String.◌∷◌ x a) String.[] h =
    absurd (never (sym h ∙ ap less (compare.cons-nil x a)))
text_before_asym (String.◌∷◌ x a) (String.◌∷◌ y b) h =
    step y b x a
    ∙ less_asym (code x) (code y) (text_before a b) (text_before b a) (sym (step x a y b) ∙ h)
        (text_before_asym a b)
