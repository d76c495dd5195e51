-- ===== src/Store/Interval.antt =====
-- src/store.rs: every key of a branch lies between the branch's bounds.
use chrimp.Store.BoundBits.{high_bits, high_words-AllWords, low_bits, low_words-AllWords}
use chrimp.Prelude.{
  Bool, Bool-cases, List, Option-cases, [], ap, arith, false, if◌then◌else◌, inl, inr, length, ltb,
  ltb→lt, refl, subst, sym, true, true≢false, ℕ, ◌-◌, ◌<◌, ◌∙◌, ◌∷◌, ◌≡◌,
}
use chrimp.Store.Key.{
  AllWords, IsKey, StoreKey, all_ones, all_zero, bit_of, bounds, difference, high_words, key,
  key_less, key_of, low_words, right, words,
}
use chrimp.Store.Order.{
  Agree, difference-none, difference-some, key_less-difference, key_less_irrefl,
}

not_true : (b : Bool) → (b ≡ true → ⊥) → b ≡ false
not_true true h = absurd (h refl)
not_true false h = refl

words-key_of : (ws : List ℕ) → length ws ≡ 4 → words (key_of ws) ≡ ws
words-key_of [] h = absurd (omega arith)
words-key_of (a ∷ []) h = absurd (omega arith)
words-key_of (a ∷ b ∷ []) h = absurd (omega arith)
words-key_of (a ∷ b ∷ c ∷ []) h = absurd (omega arith)
words-key_of (a ∷ b ∷ c ∷ d ∷ []) h = refl
words-key_of (a ∷ b ∷ c ∷ d ∷ e ∷ ws) h = absurd (omega arith)

length-words : (k : StoreKey) → length (words k) ≡ 4
length-words (key a b c d) = refl

length-all_zero : (ws : List ℕ) → length (all_zero ws) ≡ length ws
length-all_zero [] = refl
length-all_zero (w ∷ ws) = omega (arith, length-all_zero ws)

length-all_ones : (ws : List ℕ) → length (all_ones ws) ≡ length ws
length-all_ones [] = refl
length-all_ones (w ∷ ws) = omega (arith, length-all_ones ws)

length-low_words : (ws : List ℕ) (b : ℕ) → length (low_words ws b) ≡ length ws
unfolding low_words
length-low_words [] b = refl
length-low_words (w ∷ ws) b = elim (Bool-cases (ltb b 64)) [
  | inl t ↦ rw t (omega (arith, length-all_zero ws))
  | inr t ↦ rw t (omega (arith, length-low_words ws (b - 64)))
]

length-high_words : (ws : List ℕ) (b : ℕ) → length (high_words ws b) ≡ length ws
unfolding high_words
length-high_words [] b = refl
length-high_words (w ∷ ws) b = elim (Bool-cases (ltb b 64)) [
  | inl t ↦ rw t (omega (arith, length-all_ones ws))
  | inr t ↦ rw t (omega (arith, length-high_words ws (b - 64)))
]

low_key : (k : StoreKey) (b : ℕ) → words (bounds k b).0 ≡ low_words (words k) b
unfolding bounds
low_key k b = words-key_of _ (length-low_words (words k) b ∙ length-words k)

high_key : (k : StoreKey) (b : ℕ) → words (bounds k b).1 ≡ high_words (words k) b
unfolding bounds
high_key k b = words-key_of _ (length-high_words (words k) b ∙ length-words k)

right_low :
    (k : StoreKey) (b i : ℕ)
    → i < 256
    → right (bounds k b).0 i ≡ (if ltb i b then right k i else false)
unfolding right
right_low k b i h =
    ap (λ ws. bit_of ws i) (low_key k b) ∙ low_bits (words k) b i (omega (arith, length-words k))

right_high :
    (k : StoreKey) (b i : ℕ)
    → i < 256
    → right (bounds k b).1 i ≡ (if ltb i b then right k i else true)
unfolding right
right_high k b i h =
    ap (λ ws. bit_of ws i) (high_key k b) ∙ high_bits (words k) b i (omega (arith, length-words k))

pub bounds-IsKey : (k : StoreKey) (b : ℕ) → IsKey k → IsKey (bounds k b).0 × IsKey (bounds k b).1
bounds-IsKey k b h = (
  subst AllWords (sym (low_key k b)) (low_words-AllWords (words k) b h),
  subst AllWords (sym (high_key k b)) (high_words-AllWords (words k) b h),
)

-- A key that agrees with `p` before `b` is not below the lower bound.
pub low_bound :
    (p k : StoreKey) (b : ℕ) → IsKey p → IsKey k → Agree b p k → key_less k (bounds p b).0 ≡ false
low_bound p k b h m e = elim (Option-cases (difference (bounds p b).0 k)) [
  | inl t ↦ subst (λ x. key_less k x ≡ false) (sym (difference-none _ k t)) (key_less_irrefl k)
  | inr (d, t) ↦
      let (l, f, g) = difference-some (bounds p b).0 k d (bounds-IsKey p b h).0 m t in
      (key_less-difference (bounds p b).0 k d (bounds-IsKey p b h).0 m t
        (elim (Bool-cases (ltb d b)) [
          | inl u ↦ absurd (g (right_low p b d l ∙ rw u (e d (ltb→lt d b u))))
          | inr u ↦ right_low p b d l ∙ rw u refl
        ])).1
]

-- Nor is it above the upper bound.
pub high_bound :
    (p k : StoreKey) (b : ℕ) → IsKey p → IsKey k → Agree b p k → key_less (bounds p b).1 k ≡ false
high_bound p k b h m e = elim (Option-cases (difference k (bounds p b).1)) [
  | inl t ↦ subst (λ x. key_less x k ≡ false) (difference-none k _ t) (key_less_irrefl k)
  | inr (d, t) ↦
      let (l, f, g) = difference-some k (bounds p b).1 d m (bounds-IsKey p b h).1 t in
      (key_less-difference k (bounds p b).1 d m (bounds-IsKey p b h).1 t
        (elim (Bool-cases (ltb d b)) [
          | inl u ↦ absurd (g (sym (right_high p b d l ∙ rw u (e d (ltb→lt d b u)))))
          | inr u ↦ not_true (right k d) (λ v. g (v ∙ sym (right_high p b d l ∙ rw u refl)))
        ])).1
]

-- Keys on the two sides of a bit, the same before it, are in order.
pub sides_less :
    (p a b : StoreKey) (n : ℕ)
    → IsKey a
    → IsKey b
    → Agree n p a
    → Agree n p b
    → right a n ≡ false
    → right b n ≡ true
    → n < 256
    → (key_less a b ≡ true) × (key_less b a ≡ false)
sides_less p a b n h k e f l r m = elim (Option-cases (difference a b)) [
  | inl t ↦ absurd (true≢false (sym r ∙ ap (λ x. right x n) (sym (difference-none a b t)) ∙ l))
  | inr (d, t) ↦
      let (x, y, z) = difference-some a b d h k t in
      let same : d ≡ n = elim (Bool-cases (ltb d n)) [
        | inl u ↦ absurd (z (sym (e d (ltb→lt d n u)) ∙ f d (ltb→lt d n u)))
        | inr u ↦ elim (Bool-cases (ltb n d)) [
          | inl v ↦ absurd (true≢false (sym r ∙ sym (y n (ltb→lt n d v)) ∙ l))
          | inr v ↦ ground arith
        ]
      ] in
      key_less-difference a b d h k t (subst (λ i. right a i ≡ false) (sym same) l)
]
