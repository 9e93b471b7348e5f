-- ===== src/Common/Texts.antt =====
-- The order of texts by their characters.
use Prim.Native.Nat.{ℕ, Ordering, compare as compare_ℕ}
use Prim.Native.Char.{Char, code}
use Prim.Native.String.compare
use Prim.Native.String.{String, [], ◌∷◌, compare, then}
use mathlib.Core.Path.{◌≡◌, sym, ap, ◌∙◌}
use mathlib.Core.Bool.{Bool, true, false, ◌&&◌, ◌||◌}
use native.Mathlib.Omega.{arith}
use text.Mathlib.TextEquality.{path_by_compare}
use content_approval.Common.Tests.{ltb, nat_eq}

abbrev not_lt : Ordering → Bool
not_lt o = elim o [ Ordering.lt ↦ false | _ ↦ true ]

-- Not smaller.
abbrev pub text_ge : String → String → Bool
text_ge s t = not_lt (compare s t)

-- By the numbers of the first characters, then by the rest.
abbrev pub lexical : ℕ → ℕ → Bool → Bool
lexical m n rest = ltb n m || (nat_eq m n && rest)

not_lt-then : (m n : ℕ) (o : Ordering) → not_lt (then (compare_ℕ m n) o) ≡ lexical m n (not_lt o)
not_lt-then m n o = ground arith

text_ge-cons :
    (c d : Char) (s t : String) → text_ge (c ∷ s) (d ∷ t) ≡ lexical (code c) (code d) (text_ge s t)
text_ge-cons c d s t =
    ap not_lt (compare.cons-cons c d s t) ∙ not_lt-then (code c) (code d) (compare s t)

pub lexical_trans :
    (l m n : ℕ) (p q r : Bool)
    → (p ≡ true → q ≡ true → r ≡ true)
    → lexical l m p ≡ true
    → lexical m n q ≡ true
    → lexical l n r ≡ true
lexical_trans l m n p q r rest lm mn = ground arith

text_ge-nil : (d : Char) (t : String) → text_ge [] (d ∷ t) ≡ false
text_ge-nil d t = ap not_lt (compare.nil-cons d t)

nil-text_ge : (c : Char) (s : String) → text_ge (c ∷ s) [] ≡ true
nil-text_ge c s = ap not_lt (compare.cons-nil c s)

pub text_ge_trans : (s t u : String) → text_ge s t ≡ true → text_ge t u ≡ true → text_ge s u ≡ true
text_ge_trans [] [] u st tu = tu
text_ge_trans [] (d ∷ t) u st tu = absurd (cc (text_ge-nil d t, st))
text_ge_trans (c ∷ s) t [] st tu = nil-text_ge c s
text_ge_trans (c ∷ s) [] (e ∷ u) st tu = absurd (cc (text_ge-nil e u, tu))
text_ge_trans (c ∷ s) (d ∷ t) (e ∷ u) st tu =
    text_ge-cons c e s u
    ∙ lexical_trans (code c) (code d) (code e) (text_ge s t) (text_ge t u) (text_ge s u)
        (text_ge_trans s t u) (sym (text_ge-cons c d s t) ∙ st) (sym (text_ge-cons d e t u) ∙ tu)

pub lexical_total :
    (m n : ℕ) (p q : Bool) → (p ≡ false → q ≡ true) → lexical m n p ≡ false → lexical n m q ≡ true
lexical_total m n p q rest mn = ground arith

pub text_ge_total : (s t : String) → text_ge s t ≡ false → text_ge t s ≡ true
text_ge_total [] [] st = ap not_lt compare.nil-nil
text_ge_total [] (d ∷ t) st = nil-text_ge d t
text_ge_total (c ∷ s) [] st = absurd (cc (nil-text_ge c s, st))
text_ge_total (c ∷ s) (d ∷ t) st =
    text_ge-cons d c t s
    ∙ lexical_total (code c) (code d) (text_ge s t) (text_ge t s) (text_ge_total s t)
        (sym (text_ge-cons c d s t) ∙ st)

pub lexical-eq :
    (m n : ℕ) (p q : Bool)
    → lexical m n p ≡ true
    → lexical n m q ≡ true
    → (compare_ℕ m n ≡ Ordering.eq) × (p ≡ true) × (q ≡ true)
lexical-eq m n p q mn nm = (ground arith, ground arith, ground arith)

text_ge-compare :
    (s t : String) → text_ge s t ≡ true → text_ge t s ≡ true → compare s t ≡ Ordering.eq
text_ge-compare [] [] st ts = compare.nil-nil
text_ge-compare [] (d ∷ t) st ts = absurd (cc (text_ge-nil d t, st))
text_ge-compare (c ∷ s) [] st ts = absurd (cc (text_ge-nil c s, ts))
text_ge-compare (c ∷ s) (d ∷ t) st ts =
    let (same, further, back) =
      lexical-eq (code c) (code d) (text_ge s t) (text_ge t s) (sym (text_ge-cons c d s t) ∙ st)
        (sym (text_ge-cons d c t s) ∙ ts) in
    compare.cons-cons c d s t
    ∙ ap (λ o. then o (compare s t)) same
    ∙ text_ge-compare s t further back

pub text_ge_antisym : (s t : String) → text_ge s t ≡ true → text_ge t s ≡ true → s ≡ t
text_ge_antisym s t st ts = path_by_compare s t (text_ge-compare s t st ts)
