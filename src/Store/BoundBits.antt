-- ===== src/Store/BoundBits.antt =====
-- src/store.rs: the bits of the bounds of a branch.
use chrimp.Store.Word.{
  clear_low-lt, double, set_low-lt, test_bit, test_bit-clear_low, test_bit-set_low, top_bit,
}
use chrimp.Prelude.{
  Bool, Bool-cases, List, [], ap, arith, false, if◌then◌else◌, inl, inr, length, ltb, ltb→lt, not,
  refl, suc, sym, true, zero, ℕ, ◌%◌, ◌*◌, ◌+◌, ◌-◌, ◌/◌, ◌<◌, ◌^◌, ◌∙◌, ◌∷◌, ◌≡◌, ◌≤◌, ◌⊎◌,
}
use chrimp.Store.Key.{AllWords, all_ones, all_zero, bit_of, high_words, low_words, word_at}
use chrimp.Store.Bits.{bit_of_first, bit_of_later}

word_at-all_zero : (ws : List ℕ) (i : ℕ) → word_at (all_zero ws) i ≡ 0
word_at-all_zero [] i = refl
word_at-all_zero (w ∷ ws) zero = refl
word_at-all_zero (w ∷ ws) (suc i) = word_at-all_zero ws i

test_bit_zero : (i : ℕ) → test_bit 0 i ≡ false
unfolding test_bit
test_bit_zero zero = refl
test_bit_zero (suc i) = test_bit_zero i

bit_of-all_zero : (ws : List ℕ) (i : ℕ) → bit_of (all_zero ws) i ≡ false
unfolding bit_of
bit_of-all_zero ws i = rw (word_at-all_zero ws (i / 64)) (test_bit_zero (63 - i % 64))

-- All bits of `2 ^ n - 1` below `n` are ones.
test_bit_ones : (n m i : ℕ) → m + 1 ≡ 2 ^ n → i < n → test_bit m i ≡ true
unfolding test_bit
test_bit_ones zero m i e h = absurd (omega arith)
test_bit_ones (suc n) m zero e h = ground (arith, double n)
test_bit_ones (suc n) m (suc i) e h =
    test_bit_ones n (m / 2) i (omega (arith, double n)) (omega arith)

pub place_cases : (i : ℕ) → (i < 64) ⊎ ((j : ℕ) × (i ≡ 64 + j))
place_cases i = elim (Bool-cases (ltb i 64)) [
  | inl t ↦ inl (ltb→lt i 64 t)
  | inr t ↦ inr (i - 64, ground arith)
]

ltb-true : (a b : ℕ) → a < b → ltb a b ≡ true
ltb-true a b h = ground arith

ltb-false : (a b : ℕ) → b ≤ a → ltb a b ≡ false
ltb-false a b h = ground arith

ltb_shift : (j b : ℕ) → 64 ≤ b → ltb j (b - 64) ≡ ltb (64 + j) b
ltb_shift j b h = ground arith

ltb_flip : (i b : ℕ) → i < 64 → b < 64 → ltb (63 - i) (64 - b) ≡ not (ltb i b)
ltb_flip i b h k = ground arith

pick_low : (t : Bool) (u : Bool) → (if not t then false else u) ≡ (if t then u else false)
pick_low true u = refl
pick_low false u = refl

pick_high : (t : Bool) (u : Bool) → (if not t then true else u) ≡ (if t then u else true)
pick_high true u = refl
pick_high false u = refl

-- The bits of the bounds: those before `b` are kept.
pub low_bits :
    (ws : List ℕ) (b i : ℕ)
    → i < 64 * length ws
    → bit_of (low_words ws b) i ≡ (if ltb i b then bit_of ws i else false)
unfolding low_words
low_bits [] b i h = absurd (omega arith)
low_bits (w ∷ ws) b i h = elim (Bool-cases (ltb b 64)) [
  | inl t ↦ rw t (elim (place_cases i) [
    | inl l ↦
        bit_of_first _ _ i l
        ∙ test_bit-clear_low (64 - b) w (64 - 1 - i)
        ∙ ap (λ x. if x then false else top_bit 64 w i)
            (ap (λ x. ltb x (64 - b)) (omega arith) ∙ ltb_flip i b l (ltb→lt b 64 t))
        ∙ pick_low (ltb i b) (top_bit 64 w i)
        ∙ ap (λ x. if ltb i b then x else false) (sym (bit_of_first w ws i l))
    | inr (j, e) ↦ rw e (
        bit_of_later _ (all_zero ws) j
        ∙ bit_of-all_zero ws j
        ∙ sym (
            ap (λ x. if x then bit_of (w ∷ ws) (64 + j) else false)
              (ltb-false (64 + j) b (ground arith))))
  ])
  | inr t ↦ rw t (elim (place_cases i) [
    | inl l ↦
        bit_of_first w _ i l
        ∙ sym (bit_of_first w ws i l)
        ∙ sym (ap (λ x. if x then bit_of (w ∷ ws) i else false) (ltb-true i b (ground arith)))
    | inr (j, e) ↦ rw e (
        bit_of_later w _ j
        ∙ low_bits ws (b - 64) j (omega arith)
        ∙ ap (λ x. if x then bit_of ws j else false) (ltb_shift j b (ground arith))
        ∙ ap (λ x. if ltb (64 + j) b then x else false) (sym (bit_of_later w ws j)))
  ])
]

bit_of-all_ones : (ws : List ℕ) (i : ℕ) → i < 64 * length ws → bit_of (all_ones ws) i ≡ true
bit_of-all_ones [] i h = absurd (omega arith)
bit_of-all_ones (w ∷ ws) i h = elim (place_cases i) [
  | inl l ↦
      bit_of_first _ (all_ones ws) i l
      ∙ test_bit_ones 64 (2 ^ 64 - 1) (64 - 1 - i) refl (omega arith)
  | inr (j, e) ↦ rw e (bit_of_later _ (all_ones ws) j ∙ bit_of-all_ones ws j (omega arith))
]

pub high_bits :
    (ws : List ℕ) (b i : ℕ)
    → i < 64 * length ws
    → bit_of (high_words ws b) i ≡ (if ltb i b then bit_of ws i else true)
unfolding high_words
high_bits [] b i h = absurd (omega arith)
high_bits (w ∷ ws) b i h = elim (Bool-cases (ltb b 64)) [
  | inl t ↦ rw t (elim (place_cases i) [
    | inl l ↦
        bit_of_first _ _ i l
        ∙ test_bit-set_low (64 - b) w (64 - 1 - i)
        ∙ ap (λ x. if x then true else top_bit 64 w i)
            (ap (λ x. ltb x (64 - b)) (omega arith) ∙ ltb_flip i b l (ltb→lt b 64 t))
        ∙ pick_high (ltb i b) (top_bit 64 w i)
        ∙ ap (λ x. if ltb i b then x else true) (sym (bit_of_first w ws i l))
    | inr (j, e) ↦ rw e (
        bit_of_later _ (all_ones ws) j
        ∙ bit_of-all_ones ws j (omega arith)
        ∙ sym (
            ap (λ x. if x then bit_of (w ∷ ws) (64 + j) else true)
              (ltb-false (64 + j) b (ground arith))))
  ])
  | inr t ↦ rw t (elim (place_cases i) [
    | inl l ↦
        bit_of_first w _ i l
        ∙ sym (bit_of_first w ws i l)
        ∙ sym (ap (λ x. if x then bit_of (w ∷ ws) i else true) (ltb-true i b (ground arith)))
    | inr (j, e) ↦ rw e (
        bit_of_later w _ j
        ∙ high_bits ws (b - 64) j (omega arith)
        ∙ ap (λ x. if x then bit_of ws j else true) (ltb_shift j b (ground arith))
        ∙ ap (λ x. if ltb (64 + j) b then x else true) (sym (bit_of_later w ws j)))
  ])
]

pub low_words-AllWords : (ws : List ℕ) (b : ℕ) → AllWords ws → AllWords (low_words ws b)
unfolding low_words
low_words-AllWords [] b h = tt
low_words-AllWords (w ∷ ws) b h = elim (Bool-cases (ltb b 64)) [
  | inl t ↦ rw t (clear_low-lt (64 - b) 64 w h.0, zeros ws)
  | inr t ↦ rw t (h.0, low_words-AllWords ws (b - 64) h.1)
]
  where
    zeros : (vs : List ℕ) → AllWords (all_zero vs)
    zeros [] = tt
    zeros (v ∷ vs) = (omega arith, zeros vs)

pub high_words-AllWords : (ws : List ℕ) (b : ℕ) → AllWords ws → AllWords (high_words ws b)
unfolding high_words
high_words-AllWords [] b h = tt
high_words-AllWords (w ∷ ws) b h = elim (Bool-cases (ltb b 64)) [
  | inl t ↦ rw t (set_low-lt (64 - b) 64 w h.0 (omega arith), ones ws)
  | inr t ↦ rw t (h.0, high_words-AllWords ws (b - 64) h.1)
]
  where
    ones : (vs : List ℕ) → AllWords (all_ones vs)
    ones [] = tt
    ones (v ∷ vs) = (omega arith, ones vs)
