-- ===== src/Syntax/Text.antt =====
-- src/syntax.rs: identifiers, blanks and positions. A text is the list of its code points.
use chrimp.Prelude.{
  Bool, List, Option, String, [], ap, arith, code, false, if◌then◌else◌, leb, length, ltb, none,
  refl, some, suc, true, zero, ℕ, ◌&&◌, ◌+◌, ◌==◌, ◌||◌, ◌∷◌, ◌≡◌,
}

unfoldable pub is_upper : ℕ → Bool
is_upper c = leb b'A' c && leb c b'Z'

unfoldable pub is_lower : ℕ → Bool
is_lower c = leb b'a' c && leb c b'z'

unfoldable pub is_alphabetic : ℕ → Bool
unfolding is_upper is_lower
is_alphabetic c = is_upper c || is_lower c

-- `c.is_ascii_alphanumeric() || c == b'_'`: no byte of a longer code point passes it.
unfoldable pub is_word : ℕ → Bool
unfolding is_alphabetic
is_word c = is_alphabetic c || (leb b'0' c && leb c b'9') || c == b'_'

-- `char::is_whitespace`, the White_Space code points.
unfoldable pub is_whitespace : ℕ → Bool
is_whitespace c =
    (leb 9 c && leb c 13)
    || c == 32
    || c == 133
    || c == 160
    || c == 5760
    || (leb 8192 c && leb c 8202)
    || c == 8232
    || c == 8233
    || c == 8239
    || c == 8287
    || c == 12288

unfoldable pub len_utf8 : ℕ → ℕ
len_utf8 c = if ltb c 128 then 1 else if ltb c 2048 then 2 else if ltb c 65536 then 3 else 4

abbrev pub Text : Type 0
Text = List ℕ

abbrev pub codes : String → Text
codes String.[] = []
codes (String.◌∷◌ c s) = code c ∷ codes s

abbrev pub same_text : Text → Text → Bool
same_text [] [] = true
same_text [] (d ∷ t) = false
same_text (c ∷ s) [] = false
same_text (c ∷ s) (d ∷ t) = c == d && same_text s t

unfoldable pub all_words : Text → Bool
unfolding is_word
all_words [] = true
all_words (c ∷ s) = is_word c && all_words s

unfoldable pub identifier : (ℕ → Bool) → Text → Bool
unfolding all_words
identifier start [] = false
identifier start (c ∷ s) = start c && all_words (c ∷ s)

unfoldable pub variable : Text → Bool
unfolding identifier is_upper
variable s = identifier (λ c. is_upper c || c == b'_') s

unfoldable pub relation : Text → Bool
unfolding identifier is_lower
relation s = identifier is_lower s

unfoldable pub name : Text → Bool
unfolding identifier is_alphabetic
name s = identifier (λ c. is_alphabetic c || c == b'_') s

-- What is left of a text after a token it starts with.
abbrev pub strip_prefix : Text → Text → Option Text
strip_prefix [] s = some s
strip_prefix (d ∷ t) [] = none
strip_prefix (d ∷ t) (c ∷ s) = if d == c then strip_prefix t s else none

abbrev pub take : ℕ → Text → Text
take zero s = []
take (suc n) [] = []
take (suc n) (c ∷ s) = c ∷ take n s

unfoldable pub offset : Text → ℕ
unfolding len_utf8
offset [] = 0
offset (c ∷ s) = len_utf8 c + offset s

-- The number of line feeds in a text.
unfoldable pub line_feeds : Text → ℕ
line_feeds [] = 0
line_feeds (c ∷ s) = (if c == 10 then 1 else 0) + line_feeds s

-- The number of code points after the last line feed, `n` of them before the text.
unfoldable pub last_line : ℕ → Text → ℕ
last_line n [] = n
last_line n (c ∷ s) = last_line (if c == 10 then 0 else n + 1) s

infixr 35 ◌<>◌
abbrev pub ◌<>◌ : Text → Text → Text
[] <> t = t
(c ∷ s) <> t = c ∷ (s <> t)

pub <>_assoc : (s t u : Text) → (s <> t) <> u ≡ s <> t <> u
<>_assoc [] t u = refl
<>_assoc (c ∷ s) t u = ap (λ r. c ∷ r) (<>_assoc s t u)

pub <>_nil : (s : Text) → s <> [] ≡ s
<>_nil [] = refl
<>_nil (c ∷ s) = ap (λ r. c ∷ r) (<>_nil s)

pub length-<> : (s t : Text) → length (s <> t) ≡ length s + length t
length-<> [] t = omega arith
length-<> (c ∷ s) t = omega (arith, length-<> s t)
