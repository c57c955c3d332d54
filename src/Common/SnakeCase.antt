-- ===== src/Common/SnakeCase.antt =====
-- `_camel_to_snake` of apps/common/exceptions.py: two substitutions by regular expressions, and
-- `lower`.
use Prim.Native.Char.{Char, code}
use Prim.Native.String.{[], ◌∷◌, char_at}
use django_saas_kit.Base.{refl, ◌≡◌, String, Bool, false, not, ◌&&◌, ◌||◌, ◌==◌, leb, if◌then◌else◌}
use django_saas_kit.Text.{lower}

-- `[A-Z]`, `[a-z]` and `[0-9]`
abbrev pub is_upper : Char → Bool
is_upper c = leb 65 (code c) && leb (code c) 90

abbrev pub is_lower : Char → Bool
is_lower c = leb 97 (code c) && leb (code c) 122

abbrev pub is_digit : Char → Bool
is_digit c = leb 48 (code c) && leb (code c) 57

abbrev pub underscore : Char
underscore = char_at "_" 0

-- The text begins with `[A-Z]`, or with `[A-Z][a-z]`.
abbrev pub capital_first : String → Bool
capital_first [] = false
capital_first (c ∷ s) = is_upper c

abbrev pub lower_first : String → Bool
lower_first [] = false
lower_first (c ∷ s) = is_lower c

abbrev pub word_first : String → Bool
word_first [] = false
word_first (c ∷ s) = is_upper c && lower_first s

-- Where the search for the first pattern is: between two matches, at the capital of a match, or
-- among its `[a-z]+`, which takes as many letters as there are.
pub data Place : Type 0 where
  between at_capital among_letters : Place

-- `re.sub(r"(.)([A-Z][a-z]+)", r"\1_\2", name)`; the `.` takes no line break
unfoldable pub part_words : Place → String → String
part_words place [] = []
part_words at_capital (c ∷ s) = c ∷ part_words among_letters s
part_words among_letters (c ∷ s) =
    let letters = part_words among_letters s in
    let matched = part_words at_capital s in
    let rest = part_words between s in
    if is_lower c
    then c ∷ letters
    else if not (code c == 10) && word_first s
    then c ∷ underscore ∷ matched
    else c ∷ rest
part_words between (c ∷ s) =
    let matched = part_words at_capital s in
    let rest = part_words between s in
    if not (code c == 10) && word_first s then c ∷ underscore ∷ matched else c ∷ rest

-- `re.sub(r"([a-z0-9])([A-Z])", r"\1_\2", s1)`; the capital of a match begins no other match
unfoldable pub part_capitals : String → String
part_capitals [] = []
part_capitals (c ∷ s) =
    let rest = part_capitals s in
    if (is_lower c || is_digit c) && capital_first s then c ∷ underscore ∷ rest else c ∷ rest

-- `_camel_to_snake`
unfoldable pub camel_to_snake : String → String
unfolding part_words part_capitals lower
camel_to_snake name = lower (part_capitals (part_words between name))

snake_tests :
    (camel_to_snake "MethodNotAllowed" ≡ "method_not_allowed")
    × (camel_to_snake "HTTPServerError2Go" ≡ "http_server_error2_go")
    × (camel_to_snake "Http404" ≡ "http404")
unfolding camel_to_snake
snake_tests = (refl, refl, refl)
