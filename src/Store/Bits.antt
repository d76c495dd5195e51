-- ===== src/Store/Bits.antt =====
-- src/store.rs: the bits of keys decide their equality and their order.
use chrimp.Prelude.{
  ==_iff, Bool, Bool-cases, List, Option, [], arith, false, inl, inr, length, ltb, ltb→lt, none,
  refl, some, some-injective, subst, suc, sym, true, true≢false, ℕ, ◌%◌, ◌*◌, ◌+◌, ◌-◌, ◌/◌, ◌<◌,
  ◌==◌, ◌^◌, ◌∙◌, ◌∷◌, ◌≡◌, ◌⊎◌,
}
use chrimp.Store.Word.{
  agreeing, agreeing-lt, agreeing_agree, agreeing_all, agreeing_differ, top_bit,
}
use chrimp.Store.Key.{AllWords, bit_of, first_difference, map_add, words_less}

pub bit_of_first : (w : ℕ) (ws : List ℕ) (i : ℕ) → i < 64 → bit_of (w ∷ ws) i ≡ top_bit 64 w i
unfolding bit_of
bit_of_first w ws i h =
    let first : i / 64 ≡ 0 = omega arith in
    let place : 63 - i % 64 ≡ 64 - 1 - i = omega arith in rw (first, place) refl

pub bit_of_later : (w : ℕ) (ws : List ℕ) (i : ℕ) → bit_of (w ∷ ws) (64 + i) ≡ bit_of ws i
unfolding bit_of
bit_of_later w ws i =
    let later : (64 + i) / 64 ≡ suc (i / 64) = omega arith in
    let place : (64 + i) % 64 ≡ i % 64 = omega arith in rw (later, place) refl

first_difference_cases :
    (w v : ℕ) (ws vs : List ℕ)
    → ((w ≡ v) × (first_difference (w ∷ ws) (v ∷ vs) ≡ map_add 64 (first_difference ws vs)))
      ⊎ ((w ≡ v → ⊥) × (first_difference (w ∷ ws) (v ∷ vs) ≡ some (agreeing 64 w v)))
unfolding first_difference
first_difference_cases w v ws vs = elim (Bool-cases (w == v)) [
  | inl t ↦ inl ((==_iff w v).0 t, rw t refl)
  | inr t ↦ inr (λ e. true≢false (sym ((==_iff w v).1 e) ∙ t), rw t refl)
]

map_add_inv : (n d : ℕ) (o : Option ℕ) → map_add n o ≡ some d → (i : ℕ) × (o ≡ some i) × (d ≡ n + i)
map_add_inv n d none e = cc
map_add_inv n d (some i) e = (i, refl, sym (some-injective _ _ e))

map_add-none : (n : ℕ) (o : Option ℕ) → map_add n o ≡ none → o ≡ none
map_add-none n none e = refl
map_add-none n (some i) e = cc

pub first_difference-none :
    (ws vs : List ℕ) → length ws ≡ length vs → first_difference ws vs ≡ none → ws ≡ vs
unfolding first_difference
first_difference-none [] [] l e = refl
first_difference-none [] (v ∷ vs) l e = absurd (omega arith)
first_difference-none (w ∷ ws) [] l e = absurd (omega arith)
first_difference-none (w ∷ ws) (v ∷ vs) l e = elim (first_difference_cases w v ws vs) [
  | inl (t, r) ↦
      let same : ws ≡ vs =
        first_difference-none ws vs (omega arith) (map_add-none 64 _ (sym r ∙ e)) in
      cc
  | inr (t, r) ↦ cc
]

-- The bits before a difference are the same, and those at it are not.
pub data Differ (ws vs : List ℕ) (d : ℕ) : Type 0 where
  differs :
      d < 64 * length ws
      → ((i : ℕ) → i < d → bit_of ws i ≡ bit_of vs i)
      → (bit_of ws d ≡ bit_of vs d → ⊥)
      → Differ ws vs d

Differ-cons : (w : ℕ) (ws vs : List ℕ) (d : ℕ) → Differ ws vs d → Differ (w ∷ ws) (w ∷ vs) (64 + d)
Differ-cons w ws vs d (differs b e n) =
    differs (omega arith) agree (λ t. n (sym (bit_of_later w ws d) ∙ t ∙ bit_of_later w vs d))
  where
    agree : (i : ℕ) → i < 64 + d → bit_of (w ∷ ws) i ≡ bit_of (w ∷ vs) i
    agree i l = elim (Bool-cases (ltb i 64)) [
      | inl t ↦ bit_of_first w ws i (ltb→lt i 64 t) ∙ sym (bit_of_first w vs i (ltb→lt i 64 t))
      | inr t ↦
          let j : ℕ = i - 64 in
          let same : i ≡ 64 + j = ground arith in
          rw same (bit_of_later w ws j ∙ e j (ground arith) ∙ sym (bit_of_later w vs j))
    ]

agreeing_short : (w v : ℕ) → w < 2 ^ 64 → v < 2 ^ 64 → (w ≡ v → ⊥) → agreeing 64 w v < 64
agreeing_short w v h k n = elim (Bool-cases (ltb (agreeing 64 w v) 64)) [
  | inl t ↦ ltb→lt _ 64 t
  | inr t ↦ absurd (n (agreeing_all 64 w v h k (ground arith)))
]

Differ-first :
    (w v : ℕ) (ws vs : List ℕ)
    → w < 2 ^ 64
    → v < 2 ^ 64
    → (w ≡ v → ⊥)
    → Differ (w ∷ ws) (v ∷ vs) (agreeing 64 w v)
Differ-first w v ws vs h k n =
    let short : agreeing 64 w v < 64 = agreeing_short w v h k n in
    differs (omega arith)
      (λ i l.
        bit_of_first w ws i (omega arith)
        ∙ agreeing_agree 64 w v i l
        ∙ sym (bit_of_first v vs i (omega arith)))
      (λ t.
        agreeing_differ 64 w v short
          (sym (bit_of_first w ws _ short) ∙ t ∙ bit_of_first v vs _ short))

pub first_difference-Differ :
    (ws vs : List ℕ) (d : ℕ)
    → AllWords ws
    → AllWords vs
    → first_difference ws vs ≡ some d
    → Differ ws vs d
unfolding first_difference
first_difference-Differ [] vs d h k e = cc
first_difference-Differ (w ∷ ws) [] d h k e = cc
first_difference-Differ (w ∷ ws) (v ∷ vs) d h k e = elim (first_difference_cases w v ws vs) [
  | inl (t, r) ↦
      let (i, same, place) = map_add_inv 64 d _ (sym r ∙ e) in
      subst (Differ (w ∷ ws) (v ∷ vs)) (sym place) (
        subst (λ x. Differ (w ∷ ws) (x ∷ vs) (64 + i)) t
          (Differ-cons w ws vs i (first_difference-Differ ws vs i h.1 k.1 same)))
  | inr (t, r) ↦
      subst (Differ (w ∷ ws) (v ∷ vs)) (some-injective _ _ (sym r ∙ e))
        (Differ-first w v ws vs h.0 k.0 t)
]

other_bit : (a b : Bool) → (a ≡ b → ⊥) → a ≡ false → b ≡ true
other_bit true b n e = cc
other_bit false true n e = refl
other_bit false false n e = absurd (n refl)

less_first :
    (w v : ℕ) (ws vs : List ℕ)
    → w < 2 ^ 64
    → v < 2 ^ 64
    → (w ≡ v → ⊥)
    → bit_of (w ∷ ws) (agreeing 64 w v) ≡ false
    → w < v
less_first w v ws vs h k n f =
    let d : ℕ = agreeing 64 w v in
    let short : d < 64 = agreeing_short w v h k n in
    let low : top_bit 64 w d ≡ false = sym (bit_of_first w ws d short) ∙ f in
    agreeing-lt 64 w v h k short low
      (other_bit (top_bit 64 w d) (top_bit 64 v d) (agreeing_differ 64 w v short) low)

less_words :
    (w v : ℕ) (ws vs : List ℕ)
    → w < v
    → (words_less (w ∷ ws) (v ∷ vs) ≡ true) × (words_less (v ∷ vs) (w ∷ ws) ≡ false)
unfolding words_less
less_words w v ws vs h = (ground arith, ground arith)

less_rest : (w v : ℕ) (ws vs : List ℕ) → w ≡ v → words_less (w ∷ ws) (v ∷ vs) ≡ words_less ws vs
unfolding words_less
less_rest w v ws vs h = ground arith

-- The list with a zero at the first difference is the lesser.
pub words_less-Differ :
    (ws vs : List ℕ) (d : ℕ)
    → AllWords ws
    → AllWords vs
    → first_difference ws vs ≡ some d
    → bit_of ws d ≡ false
    → (words_less ws vs ≡ true) × (words_less vs ws ≡ false)
unfolding first_difference
words_less-Differ [] vs d h k e f = cc
words_less-Differ (w ∷ ws) [] d h k e f = cc
words_less-Differ (w ∷ ws) (v ∷ vs) d h k e f = elim (first_difference_cases w v ws vs) [
  | inl (t, r) ↦
      let (i, same, place) = map_add_inv 64 d _ (sym r ∙ e) in
      let (a, b) =
        words_less-Differ ws vs i h.1 k.1 same (sym (bit_of_later w ws i) ∙ (rw place at f)) in
      (less_rest w v ws vs t ∙ a, less_rest v w vs ws (sym t) ∙ b)
  | inr (t, r) ↦ less_words w v ws vs (
      less_first w v ws vs h.0 k.0 t
        (subst (λ i. bit_of (w ∷ ws) i ≡ false) (sym (some-injective _ _ (sym r ∙ e))) f))
]
