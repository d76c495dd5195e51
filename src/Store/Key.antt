-- ===== src/Store/Key.antt =====
-- src/store.rs: keys of four words, their bits, their order, and the interval of a branch.
use chrimp.Prelude.{
  Bool, List, Option, [], false, if◌then◌else◌, ltb, none, some, suc, zero, ℕ, ◌%◌, ◌&&◌, ◌+◌, ◌-◌,
  ◌/◌, ◌<◌, ◌==◌, ◌^◌, ◌||◌, ◌∷◌,
}
use chrimp.Store.Word.{agreeing, clear_low, set_low, test_bit}

pub data StoreKey : Type 0 where
  key : ℕ → ℕ → ℕ → ℕ → StoreKey

abbrev pub words : StoreKey → List ℕ
words (key a b c d) = a ∷ b ∷ c ∷ d ∷ []

abbrev pub word_at : List ℕ → ℕ → ℕ
word_at [] i = 0
word_at (w ∷ ws) zero = w
word_at (w ∷ ws) (suc i) = word_at ws i

unfoldable pub bit_of : List ℕ → ℕ → Bool
bit_of ws bit = test_bit (word_at ws (bit / 64)) (63 - bit % 64)

unfoldable pub right : StoreKey → ℕ → Bool
unfolding bit_of
right k bit = bit_of (words k) bit

abbrev pub map_add : ℕ → Option ℕ → Option ℕ
map_add n none = none
map_add n (some d) = some (n + d)

unfoldable pub first_difference : List ℕ → List ℕ → Option ℕ
first_difference [] vs = none
first_difference (w ∷ ws) [] = none
first_difference (w ∷ ws) (v ∷ vs) =
    let rest = first_difference ws vs in if w == v then map_add 64 rest else some (agreeing 64 w v)

-- The first bit in which two keys differ.
unfoldable pub difference : StoreKey → StoreKey → Option ℕ
unfolding first_difference
difference a b = first_difference (words a) (words b)

unfoldable pub words_less : List ℕ → List ℕ → Bool
words_less [] vs = false
words_less (w ∷ ws) [] = false
words_less (w ∷ ws) (v ∷ vs) = ltb w v || (w == v && words_less ws vs)

-- `a < b` of arrays of words.
unfoldable pub key_less : StoreKey → StoreKey → Bool
unfolding words_less
key_less a b = words_less (words a) (words b)

unfoldable pub page_key : StoreKey → ℕ → StoreKey
page_key (key a b c d) tail = key a b c tail

abbrev pub last_word : StoreKey → ℕ
last_word (key a b c d) = d

abbrev pub all_zero : List ℕ → List ℕ
all_zero [] = []
all_zero (w ∷ ws) = 0 ∷ all_zero ws

abbrev pub all_ones : List ℕ → List ℕ
all_ones [] = []
all_ones (w ∷ ws) = (2 ^ 64 - 1) ∷ all_ones ws

-- `low[word] &= mask`, and the words after it zero: the mask of a bit that ends a word clears all
-- of the next one.
unfoldable pub low_words : List ℕ → ℕ → List ℕ
unfolding clear_low
low_words [] bit = []
low_words (w ∷ ws) bit =
    if ltb bit 64 then clear_low (64 - bit) w ∷ all_zero ws else w ∷ low_words ws (bit - 64)

unfoldable pub high_words : List ℕ → ℕ → List ℕ
unfolding set_low
high_words [] bit = []
high_words (w ∷ ws) bit =
    if ltb bit 64 then set_low (64 - bit) w ∷ all_ones ws else w ∷ high_words ws (bit - 64)

abbrev pub key_of : List ℕ → StoreKey
key_of ws = key (word_at ws 0) (word_at ws 1) (word_at ws 2) (word_at ws 3)

-- The least and the greatest key that agree with a key before a bit.
unfoldable pub bounds : StoreKey → ℕ → StoreKey × StoreKey
unfolding low_words high_words
bounds k bit = (key_of (low_words (words k) bit), key_of (high_words (words k) bit))

abbrev pub AllWords : List ℕ → Type 0
AllWords [] = Unit {0}
AllWords (w ∷ ws) = (w < 2 ^ 64) × AllWords ws

-- The words are of 64 bits.
abbrev pub IsKey : StoreKey → Type 0
IsKey k = AllWords (words k)
