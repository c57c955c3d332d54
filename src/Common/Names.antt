-- ===== src/Common/Names.antt =====
-- Class names in snake case: the names that are words, each a capital and small letters.
use Prim.Native.Char.{Char, code}
use Prim.Native.String.{[] as nil, ◌∷◌ as cons}
use django_saas_kit.Base.{
  sym, ap, ◌∙◌, inr, inl, ◌||◌, Bool-cases, ◌==◌, if◌then◌else◌, String, Bool, true, false, List,
  [], ◌∷◌, ◌≡◌, refl, arith, ◌&&◌,
}
use django_saas_kit.Text.{lower, append}
use django_saas_kit.Common.SnakeCase.{
  is_digit, capital_first, is_upper, is_lower, underscore, between, at_capital, among_letters,
  part_words, part_capitals, camel_to_snake,
}

-- A capital, a small letter, and the letters after these.
pub record Word : Type 0 where
  pub capital : Char
  pub letter : Char
  pub letters : String

abbrev pub all_lower : String → Bool
all_lower nil = true
all_lower (cons c s) = is_lower c && all_lower s

abbrev pub IsWord : Word → Type 0
IsWord w = (is_upper w.capital ≡ true) × (is_lower w.letter ≡ true) × (all_lower w.letters ≡ true)

abbrev pub AllWords : List Word → Type 0
AllWords [] = Unit
AllWords (w ∷ ws) = IsWord w × AllWords ws

abbrev pub spelled : Word → String
spelled w = cons w.capital (cons w.letter w.letters)

-- The words with nothing between them, and in small letters with an underscore between two.
abbrev pub camel : List Word → String
camel [] = nil
camel (w ∷ ws) = append (spelled w) (camel ws)

abbrev pub parted : List Word → String
parted [] = nil
parted (w ∷ []) = spelled w
parted (w ∷ w' ∷ ws) = append (spelled w) (cons underscore (parted (w' ∷ ws)))

abbrev pub snake : List Word → String
snake [] = nil
snake (w ∷ []) = lower (spelled w)
snake (w ∷ w' ∷ ws) = append (lower (spelled w)) (cons underscore (snake (w' ∷ ws)))

upper_lower : (c : Char) → is_upper c ≡ true → is_lower c ≡ false
upper_lower c h = ground arith

lower_upper : (c : Char) → is_lower c ≡ true → is_upper c ≡ false
lower_upper c h = ground arith

upper_break : (c : Char) → is_upper c ≡ true → (code c == 10) ≡ false
upper_break c h = ground arith

upper_plain : (c : Char) → is_upper c ≡ true → (is_lower c || is_digit c) ≡ false
upper_plain c h = ground arith

not_break : (c : Char) → is_lower c ≡ true → (code c == 10) ≡ false
not_break c h = ground arith

and_true : (a b : Bool) → (a && b) ≡ true → (a ≡ true) × (b ≡ true)
and_true a b h = ground arith

-- What the first substitution makes of the words after a word.
abbrev glue : List Word → String
glue [] = nil
glue (w ∷ ws) = cons underscore (part_words at_capital (camel (w ∷ ws)))

-- What the second one makes of a text after a small letter.
abbrev boundary : String → String
boundary t = if capital_first t then cons underscore (part_capitals t) else part_capitals t

append-nil : (s : String) → append s nil ≡ s
unfolding append
append-nil nil = refl
append-nil (cons c s) = rw (append-nil s) refl

letters_copied :
    (r t : String)
    → all_lower r ≡ true
    → part_words among_letters (append r t) ≡ append r (part_words among_letters t)
unfolding part_words append
letters_copied nil t small = refl
letters_copied (cons c r) t small = ground (arith, letters_copied r t)

among_words :
    (ws : List Word)
    → AllWords ws
    → part_words among_letters (camel ws) ≡ part_words between (camel ws)
unfolding part_words append
among_words [] all = refl
among_words (w ∷ ws) ((capital, letter, letters), all) = rw (upper_lower w.capital capital) refl

after_letters :
    (c : Char) (r : String) (ws : List Word)
    → is_lower c ≡ true
    → all_lower r ≡ true
    → AllWords ws
    → part_words between (cons c (append r (camel ws))) ≡ cons c (append r (glue ws))
unfolding part_words append
after_letters c nil [] small smalls all = rw (not_break c small) refl
after_letters c nil (w ∷ ws) small smalls ((capital, letter, letters), all) =
    rw (not_break c small, capital, letter) refl
after_letters c (cons d r) ws small smalls all =
    let (here, rest) = and_true (is_lower d) (all_lower r) smalls in
    rw (not_break c small, lower_upper d here, after_letters d r ws here rest all) refl

first_word :
    (w : Word) (ws : List Word)
    → IsWord w
    → AllWords ws
    → part_words between (camel (w ∷ ws))
      ≡ cons w.capital (cons w.letter (append w.letters (glue ws)))
unfolding part_words append
first_word w ws (capital, letter, letters) all =
    rw
      (
        upper_break w.capital capital,
        lower_upper w.letter letter,
        after_letters w.letter w.letters ws letter letters all,
      )
      refl

capitals_letters :
    (c : Char) (r t : String)
    → is_lower c ≡ true
    → all_lower r ≡ true
    → part_capitals (cons c (append r t)) ≡ cons c (append r (boundary t))
unfolding part_capitals append
capitals_letters c nil t small smalls = elim (Bool-cases (capital_first t)) [
  | inl capital ↦ rw (small, capital) refl
  | inr other ↦ rw (small, other) refl
]
capitals_letters c (cons d r) t small smalls =
    let (here, rest) = and_true (is_lower d) (all_lower r) smalls in
    rw (small, lower_upper d here, capitals_letters d r t here rest) refl

capitals_word :
    (w : Word) (t : String)
    → IsWord w
    → part_capitals (append (spelled w) t) ≡ append (spelled w) (boundary t)
unfolding part_capitals append
capitals_word w t (capital, letter, letters) =
    rw (upper_plain w.capital capital, capitals_letters w.letter w.letters t letter letters) refl

-- A word that the first substitution has found, up to the next one.
matched_word :
    (w : Word) (ws : List Word)
    → IsWord w
    → AllWords ws
    → part_words at_capital (camel (w ∷ ws)) ≡ append (spelled w) (part_words between (camel ws))
unfolding part_words append
matched_word w ws (capital, letter, letters) all =
    rw (letter, letters_copied w.letters (camel ws) letters, among_words ws all) refl

-- What follows a word, where the ends of words are marked.
abbrev after_word : List Word → String
after_word [] = nil
after_word (w ∷ ws) = cons underscore (parted (w ∷ ws))

parted_word : (w : Word) (ws : List Word) → append (spelled w) (after_word ws) ≡ parted (w ∷ ws)
parted_word w [] = append-nil (spelled w)
parted_word w (w' ∷ ws) = refl

boundary_words :
    (ws : List Word)
    → AllWords ws
    → part_capitals (part_words between (camel ws)) ≡ parted ws
    → boundary (part_words between (camel ws)) ≡ after_word ws
unfolding part_words part_capitals
boundary_words [] all marked = refl
boundary_words (w ∷ ws) (word, all) marked =
    let first = first_word w ws word all in rw (sym marked) (rw (first, word.0) refl)

glue_parts :
    (w : Word) (ws : List Word)
    → IsWord w
    → AllWords ws
    → boundary (glue (w ∷ ws))
      ≡ cons underscore (append (spelled w) (boundary (part_words between (camel ws))))
unfolding part_capitals
glue_parts w ws word all =
    rw (matched_word w ws word all)
      (ap (cons underscore) (capitals_word w (part_words between (camel ws)) word))

-- The second substitution finds the ends that the first one has left.
both_parts :
    (ws : List Word) → AllWords ws → part_capitals (part_words between (camel ws)) ≡ parted ws
unfolding part_words part_capitals append
both_parts [] all = refl
both_parts (w ∷ []) (word, all) =
    rw (first_word w [] word all) (capitals_word w nil word ∙ append-nil (spelled w))
both_parts (w ∷ w' ∷ ws) (word, (word', all)) = rw (first_word w (w' ∷ ws) word (word', all)) (
    capitals_word w (glue (w' ∷ ws)) word
    ∙ ap (append (spelled w)) (
        glue_parts w' ws word' all
        ∙ ap (λ t. cons underscore (append (spelled w') t))
            (boundary_words ws all (both_parts ws all))
        ∙ ap (cons underscore) (parted_word w' ws)))

lower-append : (s t : String) → lower (append s t) ≡ append (lower s) (lower t)
unfolding lower append
lower-append nil t = refl
lower-append (cons c s) t = rw (lower-append s t) refl

lower-parted : (ws : List Word) → lower (parted ws) ≡ snake ws
unfolding lower
lower-parted [] = refl
lower-parted (w ∷ []) = refl
lower-parted (w ∷ w' ∷ ws) =
    lower-append (spelled w) (cons underscore (parted (w' ∷ ws)))
    ∙ ap (λ t. append (lower (spelled w)) (cons underscore t)) (lower-parted (w' ∷ ws))

pub camel_to_snake_lem : (ws : List Word) → AllWords ws → camel_to_snake (camel ws) ≡ snake ws
unfolding camel_to_snake
camel_to_snake_lem ws all = ap lower (both_parts ws all) ∙ lower-parted ws
