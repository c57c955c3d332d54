-- ===== src/Text/Laws.antt =====
-- Laws of the string methods.

use Prim.Native.String.{[], ◌∷◌}
use Prim.Native.Char.{Char}
use text.Mathlib.TextLemmas.{tail-eq_of_cons-eq, nil≢cons}
use django_saas_kit.Base.{◌≢◌, String, ◌≡◌, refl, arith}
use django_saas_kit.Text.{append, strip_right, strip, lower}

-- Stripping on the right twice changes no more.
strip_right_idem : (s : String) → strip_right (strip_right s) ≡ strip_right s
unfolding strip_right
strip_right_idem [] = refl
strip_right_idem (c ∷ s) = ground (arith, strip_right_idem s)

strip_right_test : strip "  Ab c\n " ≡ "Ab c"
unfolding strip
strip_right_test = refl

lower_test : lower "Ab-Z9@" ≡ "ab-z9@"
unfolding lower
lower_test = refl

-- What is appended to one text is told from the results,
pub append_cancel : (s t t' : String) → append s t ≡ append s t' → t ≡ t'
unfolding append
append_cancel [] t t' e = e
append_cancel (c ∷ s) t t' e = append_cancel s t t' (tail-eq_of_cons-eq e)

-- ... and no text is that text with something appended.
pub append-own : (c : Char) (s t : String) → s ≢ append s (c ∷ t)
unfolding append
append-own c [] t e = nil≢cons e
append-own c (d ∷ s) t e = append-own c s t (tail-eq_of_cons-eq e)
