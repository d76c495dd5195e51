-- ===== src/Store/Word.antt =====
-- src/store.rs: the bits of a word, in the order in which the trie tests them.
-- `w & (1 << i) != 0`.
use chrimp.Prelude.{
  Bool, Bool-cases, ap, arith, false, false≢true, if◌then◌else◌, inl, inr, ltb, refl, same_bit,
  same_bit_iff, suc, sym, true, true≢false, zero, ℕ, ◌%◌, ◌*◌, ◌+◌, ◌-◌, ◌/◌, ◌<◌, ◌==◌, ◌^◌, ◌∙◌,
  ◌≡◌, ◌≤◌, ◌⊎◌,
}

unfoldable pub test_bit : ℕ → ℕ → Bool
test_bit w zero = w % 2 == 1
test_bit w (suc i) = test_bit (w / 2) i

-- `w & (u64::MAX << n)` and `w | !(u64::MAX << n)`.
unfoldable pub clear_low : ℕ → ℕ → ℕ
clear_low zero w = w
clear_low (suc n) w = 2 * clear_low n (w / 2)

unfoldable pub set_low : ℕ → ℕ → ℕ
set_low zero w = w
set_low (suc n) w = 2 * set_low n (w / 2) + 1

-- The number of leading bits, of `n`, in which two words agree: for a word of `n` bits, the leading
-- zeros of `a ^ b`.
unfoldable pub agreeing : ℕ → ℕ → ℕ → ℕ
unfolding test_bit
agreeing zero a b = 0
agreeing (suc n) a b =
    let rest = agreeing n a b in if same_bit (test_bit a n) (test_bit b n) then suc rest else 0

pub double : (n : ℕ) → 2 ^ suc n ≡ 2 ^ n + 2 ^ n
double n = grind arith

-- Words of `n` bits that agree in each of them are equal.
pub test_bit_ext :
    (n a b : ℕ) → a < 2 ^ n → b < 2 ^ n → ((i : ℕ) → i < n → test_bit a i ≡ test_bit b i) → a ≡ b
unfolding test_bit
test_bit_ext zero a b h k e = omega arith
test_bit_ext (suc n) a b h k e =
    let low : (a % 2 == 1) ≡ (b % 2 == 1) = e 0 (omega arith) in
    let high : a / 2 ≡ b / 2 =
      test_bit_ext n (a / 2) (b / 2) (omega (arith, double n)) (omega (arith, double n))
        (λ i l. e (suc i) (omega arith)) in
    ground arith

-- The greater word has the first bit in which they differ.
test_bit-lt :
    (n i a b : ℕ)
    → a < 2 ^ n
    → b < 2 ^ n
    → ((j : ℕ) → j < n → i < j → test_bit a j ≡ test_bit b j)
    → test_bit a i ≡ false
    → test_bit b i ≡ true
    → a < b
unfolding test_bit
test_bit-lt zero i a b h k e f t = absurd (zero_bit i f t)
  where
    zero_bit : (i : ℕ) → test_bit a i ≡ false → test_bit b i ≡ true → ⊥
    zero_bit i f t =
        let same : a ≡ b = omega arith in true≢false (sym t ∙ ap (λ w. test_bit w i) (sym same) ∙ f)
test_bit-lt (suc n) zero a b h k e f t =
    let high : a / 2 ≡ b / 2 =
      test_bit_ext n (a / 2) (b / 2) (omega (arith, double n)) (omega (arith, double n))
        (λ i l. e (suc i) (omega arith) (omega arith)) in
    ground arith
test_bit-lt (suc n) (suc i) a b h k e f t =
    let high : a / 2 < b / 2 =
      test_bit-lt n i (a / 2) (b / 2) (omega (arith, double n)) (omega (arith, double n))
        (λ j l m. e (suc j) (omega arith) (omega arith)) f t in
    omega arith

-- The bit at a position counted from the top of `n`.
abbrev pub top_bit : ℕ → ℕ → ℕ → Bool
top_bit n w i = test_bit w (n - 1 - i)

-- The top bit decides whether the agreement goes on.
agreeing_cases :
    (n a b : ℕ)
    → ((test_bit a n ≡ test_bit b n) × (agreeing (suc n) a b ≡ suc (agreeing n a b)))
      ⊎ ((same_bit (test_bit a n) (test_bit b n) ≡ false) × (agreeing (suc n) a b ≡ 0))
unfolding agreeing
agreeing_cases n a b = elim (Bool-cases (same_bit (test_bit a n) (test_bit b n))) [
  | inl e ↦ inl ((same_bit_iff _ _).0 e, rw e refl)
  | inr e ↦ inr (e, rw e refl)
]

pub agreeing-le : (n a b : ℕ) → agreeing n a b ≤ n
unfolding agreeing
agreeing-le zero a b = omega arith
agreeing-le (suc n) a b = ground (arith, agreeing-le n a b)

shift : (n i w : ℕ) → top_bit (suc n) w (suc i) ≡ top_bit n w i
shift n i w = ap (test_bit w) (omega arith)

top : (n w : ℕ) → top_bit (suc n) w 0 ≡ test_bit w n
top n w = ap (test_bit w) (omega arith)

pub agreeing_agree : (n a b i : ℕ) → i < agreeing n a b → top_bit n a i ≡ top_bit n b i
agreeing_agree zero a b i h = absurd (omega (arith, agreeing-le 0 a b))
agreeing_agree (suc n) a b zero h = elim (agreeing_cases n a b) [
  | inl (e, k) ↦ top n a ∙ e ∙ sym (top n b)
  | inr (e, k) ↦ absurd (omega arith)
]
agreeing_agree (suc n) a b (suc i) h = elim (agreeing_cases n a b) [
  | inl (e, k) ↦ shift n i a ∙ agreeing_agree n a b i (omega arith) ∙ sym (shift n i b)
  | inr (e, k) ↦ absurd (omega arith)
]

pub agreeing_differ :
    (n a b : ℕ)
    → agreeing n a b < n
    → top_bit n a (agreeing n a b) ≡ top_bit n b (agreeing n a b)
    → ⊥
agreeing_differ zero a b h t = omega arith
agreeing_differ (suc n) a b h t = elim (agreeing_cases n a b) [
  | inl (e, k) ↦
      agreeing_differ n a b (omega arith)
        (sym (shift n (agreeing n a b) a) ∙ (rw k at t) ∙ shift n (agreeing n a b) b)
  | inr (e, k) ↦ false≢true (sym e ∙ (same_bit_iff _ _).1 (sym (top n a) ∙ (rw k at t) ∙ top n b))
]

-- Words that agree in every bit are equal.
pub agreeing_all : (n a b : ℕ) → a < 2 ^ n → b < 2 ^ n → n ≤ agreeing n a b → a ≡ b
agreeing_all n a b h k l = test_bit_ext n a b h k (λ i m.
    ap (test_bit a) (omega arith)
    ∙ agreeing_agree n a b (n - 1 - i) (omega arith)
    ∙ ap (test_bit b) (omega arith))

-- The word with the bit where they first differ is the greater.
pub agreeing-lt :
    (n a b : ℕ)
    → a < 2 ^ n
    → b < 2 ^ n
    → agreeing n a b < n
    → top_bit n a (agreeing n a b) ≡ false
    → top_bit n b (agreeing n a b) ≡ true
    → a < b
agreeing-lt n a b h k l f t =
    test_bit-lt n (n - 1 - agreeing n a b) a b h k
      (λ j m q.
        ap (test_bit a) (omega arith)
        ∙ agreeing_agree n a b (n - 1 - j) (omega arith)
        ∙ ap (test_bit b) (omega arith))
      f t

pub clear_low-lt : (n m w : ℕ) → w < 2 ^ m → clear_low n w < 2 ^ m
unfolding clear_low
clear_low-lt zero m w h = h
clear_low-lt (suc n) zero w h = omega (arith, clear_low-lt n 0 (w / 2) (omega arith))
clear_low-lt (suc n) (suc m) w h =
    omega (arith, double m, clear_low-lt n m (w / 2) (omega (arith, double m)))

pub set_low-lt : (n m w : ℕ) → w < 2 ^ m → n ≤ m → set_low n w < 2 ^ m
unfolding set_low
set_low-lt zero m w h k = h
set_low-lt (suc n) zero w h k = absurd (omega arith)
set_low-lt (suc n) (suc m) w h k =
    omega (arith, double m, set_low-lt n m (w / 2) (omega (arith, double m)) (omega arith))

halve : (w : ℕ) → (2 * w) / 2 ≡ w
halve w = omega arith

halve_odd : (w : ℕ) → (2 * w + 1) / 2 ≡ w
halve_odd w = omega arith

pub test_bit-clear_low :
    (n w i : ℕ) → test_bit (clear_low n w) i ≡ (if ltb i n then false else test_bit w i)
unfolding test_bit clear_low
test_bit-clear_low zero w i = ground arith
test_bit-clear_low (suc n) w zero = ground arith
test_bit-clear_low (suc n) w (suc i) =
    rw (halve (clear_low n (w / 2))) (test_bit-clear_low n (w / 2) i ∙ ground arith)

pub test_bit-set_low :
    (n w i : ℕ) → test_bit (set_low n w) i ≡ (if ltb i n then true else test_bit w i)
unfolding test_bit set_low
test_bit-set_low zero w i = ground arith
test_bit-set_low (suc n) w zero = ground arith
test_bit-set_low (suc n) w (suc i) =
    rw (halve_odd (set_low n (w / 2))) (test_bit-set_low n (w / 2) i ∙ ground arith)
