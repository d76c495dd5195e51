-- ===== src/Store/Order.antt =====
-- src/store.rs: the order of keys, and the interval that a branch's keys lie in.
use chrimp.Prelude.{
  Bool-cases, List, [], arith, false, inl, inr, length, none, refl, some, sym, true, true≢false, ℕ,
  ◌<◌, ◌∙◌, ◌∷◌, ◌≡◌, ◌⊎◌,
}
use chrimp.Store.Key.{IsKey, StoreKey, difference, key, key_less, right, words, words_less}
use chrimp.Store.Bits.{differs, first_difference-Differ, first_difference-none, words_less-Differ}

abbrev pub Agree : ℕ → StoreKey → StoreKey → Type 0
Agree n a b = (i : ℕ) → i < n → right a i ≡ right b i

pub difference-none : (a b : StoreKey) → difference a b ≡ none → a ≡ b
unfolding difference
difference-none (key a b c d) (key a' b' c' d') h =
    let same : words (key a b c d) ≡ words (key a' b' c' d') =
      first_difference-none (words (key a b c d)) (words (key a' b' c' d')) refl h in
    cc

pub difference-some :
    (a b : StoreKey) (n : ℕ)
    → IsKey a
    → IsKey b
    → difference a b ≡ some n
    → (n < 256) × Agree n a b × (right a n ≡ right b n → ⊥)
unfolding difference right
difference-some (key a b c d) (key a' b' c' d') n h k e =
    elim (first_difference-Differ (a ∷ b ∷ c ∷ d ∷ []) (a' ∷ b' ∷ c' ∷ d' ∷ []) n h k e) [
      | differs l f g ↦ (l, f, g)
    ]

-- The key with a zero at the first difference is the lesser.
pub key_less-difference :
    (a b : StoreKey) (n : ℕ)
    → IsKey a
    → IsKey b
    → difference a b ≡ some n
    → right a n ≡ false
    → (key_less a b ≡ true) × (key_less b a ≡ false)
unfolding difference right key_less
key_less-difference (key a b c d) (key a' b' c' d') n h k e f =
    words_less-Differ (a ∷ b ∷ c ∷ d ∷ []) (a' ∷ b' ∷ c' ∷ d' ∷ []) n h k e f

words_less_irrefl : (ws : List ℕ) → words_less ws ws ≡ false
unfolding words_less
words_less_irrefl [] = refl
words_less_irrefl (w ∷ ws) = ground (arith, words_less_irrefl ws)

words_less_cotrans :
    (us vs ws : List ℕ)
    → length us ≡ length vs
    → words_less us ws ≡ true
    → (words_less us vs ≡ true) ⊎ (words_less vs ws ≡ true)
unfolding words_less
words_less_cotrans [] vs ws l h = cc
words_less_cotrans (u ∷ us) [] ws l h = absurd (omega arith)
words_less_cotrans (u ∷ us) (v ∷ vs) [] l h = cc
words_less_cotrans (u ∷ us) (v ∷ vs) (w ∷ ws) l h =
    let rest : words_less us ws ≡ true → (words_less us vs ≡ true) ⊎ (words_less vs ws ≡ true) =
      λ m. words_less_cotrans us vs ws (omega arith) m in
    elim (Bool-cases (words_less us ws)) [
      | inl t ↦ elim (rest t) [ inl a ↦ ground arith | inr a ↦ ground arith ]
      | inr t ↦ ground arith
    ]

pub key_less_irrefl : (k : StoreKey) → key_less k k ≡ false
unfolding key_less
key_less_irrefl k = words_less_irrefl (words k)

pub key_less_cotrans :
    (a b c : StoreKey) → key_less a c ≡ true → (key_less a b ≡ true) ⊎ (key_less b c ≡ true)
unfolding key_less
key_less_cotrans (key a b c d) (key a' b' c' d') k h =
    words_less_cotrans (a ∷ b ∷ c ∷ d ∷ []) (a' ∷ b' ∷ c' ∷ d' ∷ []) (words k) refl h

-- `a < b` and `b <= c`.
pub less_le : (a b c : StoreKey) → key_less a b ≡ true → key_less c b ≡ false → key_less a c ≡ true
less_le a b c h k = elim (key_less_cotrans a c b h) [
  | inl t ↦ t
  | inr t ↦ absurd (true≢false (sym t ∙ k))
]

-- `a <= b` and `b < c`.
pub le_less : (a b c : StoreKey) → key_less b a ≡ false → key_less b c ≡ true → key_less a c ≡ true
le_less a b c h k = elim (key_less_cotrans b a c k) [
  | inl t ↦ absurd (true≢false (sym t ∙ h))
  | inr t ↦ t
]

-- `a <= b` and `b <= c`.
pub le_trans :
    (a b c : StoreKey) → key_less b a ≡ false → key_less c b ≡ false → key_less c a ≡ false
le_trans a b c h k = elim (Bool-cases (key_less c a)) [
  | inr t ↦ t
  | inl t ↦ elim (key_less_cotrans c b a t) [
    | inl u ↦ absurd (true≢false (sym u ∙ k))
    | inr u ↦ absurd (true≢false (sym u ∙ h))
  ]
]
