-- ===== src/Text.antt =====
-- Python's `str` methods that the services call: `strip`, `lower`, `startswith`, and `split`, `in` and
-- `replace` for one character.
-- `lower` maps the ASCII letters; other characters are left alone.
pub mod Laws
use Prim.Native.Char.{Char, code}
use Prim.Native.String.{[], ◌∷◌, char_at}
use django_saas_kit.Base.{
  ℕ, zero, suc, ◌-◌, String, Bool, true, false, ◌&&◌, ◌||◌, ◌==◌, leb, if◌then◌else◌,
}

abbrev pub is_blank : String → Bool
is_blank [] = true
is_blank (c ∷ s) = false

-- `str.isspace` of one character
unfoldable pub is_space : ℕ → Bool
is_space c =
    (leb 9 c && leb c 13)
    || (leb 28 c && leb c 32)
    || c == 133
    || c == 160
    || c == 5760
    || (leb 8192 c && leb c 8202)
    || c == 8232
    || c == 8233
    || c == 8239
    || c == 8287
    || c == 12288

unfoldable pub strip_left : String → String
strip_left [] = []
strip_left (c ∷ s) = if is_space (code c) then strip_left s else c ∷ s

unfoldable pub strip_right : String → String
strip_right [] = []
strip_right (c ∷ s) =
    let rest = strip_right s in if is_blank rest && is_space (code c) then [] else c ∷ rest

unfoldable pub strip : String → String
unfolding strip_left strip_right is_space
strip s = strip_right (strip_left s)

unfoldable pub lower_char : Char → Char
lower_char c =
    if leb 65 (code c) && leb (code c) 90
    then char_at "abcdefghijklmnopqrstuvwxyz" (code c - 65)
    else c

unfoldable pub lower : String → String
unfolding lower_char
lower [] = []
lower (c ∷ s) = lower_char c ∷ lower s

-- `s.split(sep)[0]` for a separator of one character
unfoldable pub before : ℕ → String → String
before sep [] = []
before sep (c ∷ s) = let rest = before sep s in if code c == sep then [] else c ∷ rest

-- `ch in s` for one character
unfoldable pub contains_char : ℕ → String → Bool
contains_char k [] = false
contains_char k (c ∷ s) = code c == k || contains_char k s

-- `a + b`
unfoldable pub append : String → String → String
append [] t = t
append (c ∷ s) t = c ∷ append s t

-- `s.startswith(p)`, with `p` first
unfoldable pub starts_with : String → String → Bool
starts_with [] s = true
starts_with (c ∷ p) [] = false
starts_with (c ∷ p) (d ∷ s) = let rest = starts_with p s in code c == code d && rest

-- `s.replace(old, new)` for characters `old` and `new`
unfoldable pub replace_char : ℕ → Char → String → String
replace_char old new [] = []
replace_char old new (c ∷ s) = (if code c == old then new else c) ∷ replace_char old new s

-- `upper`, on the ASCII letters
unfoldable pub upper_char : Char → Char
upper_char c =
    if leb 97 (code c) && leb (code c) 122
    then char_at "ABCDEFGHIJKLMNOPQRSTUVWXYZ" (code c - 97)
    else c

unfoldable pub upper : String → String
unfolding upper_char
upper [] = []
upper (c ∷ s) = upper_char c ∷ upper s

-- `s.rstrip(c)` for one character
unfoldable pub rstrip_char : ℕ → String → String
rstrip_char k [] = []
rstrip_char k (c ∷ s) =
    let rest = rstrip_char k s in if is_blank rest && code c == k then [] else c ∷ rest

-- `s.lstrip(c)` for one character, and `s[:n]`
unfoldable pub lstrip_char : ℕ → String → String
lstrip_char k [] = []
lstrip_char k (c ∷ s) = let rest = lstrip_char k s in if code c == k then rest else c ∷ s

unfoldable pub take_chars : ℕ → String → String
take_chars zero s = []
take_chars (suc n) [] = []
take_chars (suc n) (c ∷ s) = c ∷ take_chars n s

-- `s.split(sep, 1)[1]`, or the empty text where there is no second part
unfoldable pub after_first : ℕ → String → String
after_first sep [] = []
after_first sep (c ∷ s) = let rest = after_first sep s in if code c == sep then s else rest

-- `re.sub(r"[^\w]", "_", base)`, for the class `\w` of the re module
unfoldable pub sub_nonword : (Char → Bool) → String → String
sub_nonword is_word [] = []
sub_nonword is_word (c ∷ s) = (if is_word c then c else char_at "_" 0) ∷ sub_nonword is_word s

-- `s[n:]`
unfoldable pub drop_chars : ℕ → String → String
drop_chars zero s = s
drop_chars (suc n) [] = []
drop_chars (suc n) (c ∷ s) = drop_chars n s
