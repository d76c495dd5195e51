-- ===== src/Store/Pages.antt =====
-- src/store.rs: the keys of a page are those that share their first 253 bits.
use chrimp.Store.BoundBits.{place_cases}
use chrimp.Prelude.{
  List, Option-cases, [], ap, arith, inl, inr, leb→le, refl, subst, suc, sym, true, ℕ, ◌&&◌, ◌+◌,
  ◌-◌, ◌/◌, ◌<◌, ◌==◌, ◌^◌, ◌∙◌, ◌∷◌, ◌≡◌, ◌≤◌,
}
use chrimp.Store.Word.{test_bit, test_bit_ext, top_bit}
use chrimp.Store.Key.{IsKey, StoreKey, bit_of, difference, key, right}
use chrimp.Store.Bits.{bit_of_first, bit_of_later}
use chrimp.Store.Order.{Agree, difference-none, difference-some}
use chrimp.Store.Trie.{page_bit, within_page}
use chrimp.Store.Shape.{SamePage}

AgreeWords : ℕ → List ℕ → List ℕ → Type 0
AgreeWords n ws vs = (i : ℕ) → i < n → bit_of ws i ≡ bit_of vs i

-- Two lists that agree in the bits of a word have the same first word.
same_first :
    (n w v : ℕ) (ws vs : List ℕ)
    → w < 2 ^ 64
    → v < 2 ^ 64
    → AgreeWords (64 + n) (w ∷ ws) (v ∷ vs)
    → w ≡ v
unfolding AgreeWords
same_first n w v ws vs h k e = test_bit_ext 64 w v h k λ i l.
    let j : ℕ = 63 - i in
    ap (test_bit w) (omega arith)
    ∙ sym (bit_of_first w ws j (omega arith))
    ∙ e j (omega arith)
    ∙ bit_of_first v vs j (omega arith)
    ∙ ap (test_bit v) (omega arith)

later_agree :
    (n w v : ℕ) (ws vs : List ℕ) → AgreeWords (64 + n) (w ∷ ws) (v ∷ vs) → AgreeWords n ws vs
unfolding AgreeWords
later_agree n w v ws vs e i l =
    sym (bit_of_later w ws i) ∙ e (64 + i) (omega arith) ∙ bit_of_later v vs i

agree_cons :
    (n w v : ℕ) (ws vs : List ℕ)
    → w ≡ v
    → AgreeWords n ws vs
    → AgreeWords (64 + n) (w ∷ ws) (v ∷ vs)
unfolding AgreeWords
agree_cons n w v ws vs t e i l = elim (place_cases i) [
  | inl h ↦ bit_of_first w ws i h ∙ ap (λ x. top_bit 64 x i) t ∙ sym (bit_of_first v vs i h)
  | inr (j, h) ↦ rw h (bit_of_later w ws j ∙ e j (omega arith) ∙ sym (bit_of_later v vs j))
]

test_bit_eighth : (w i : ℕ) → test_bit (w / 8) i ≡ test_bit w (suc (suc (suc i)))
unfolding test_bit
test_bit_eighth w i = ap (λ x. test_bit x i) (omega arith)

same_eighth :
    (w v : ℕ) (ws vs : List ℕ)
    → w < 2 ^ 64
    → v < 2 ^ 64
    → AgreeWords 61 (w ∷ ws) (v ∷ vs)
    → w / 8 ≡ v / 8
unfolding AgreeWords
same_eighth w v ws vs h k e = test_bit_ext 61 (w / 8) (v / 8) (omega arith) (omega arith) λ i l.
    let j : ℕ = 60 - i in
    test_bit_eighth w i
    ∙ ap (test_bit w) (omega arith)
    ∙ sym (bit_of_first w ws j (omega arith))
    ∙ e j (omega arith)
    ∙ bit_of_first v vs j (omega arith)
    ∙ ap (test_bit v) (omega arith)
    ∙ sym (test_bit_eighth v i)

eighth_agree : (w v : ℕ) (ws vs : List ℕ) → w / 8 ≡ v / 8 → AgreeWords 61 (w ∷ ws) (v ∷ vs)
unfolding AgreeWords
eighth_agree w v ws vs t i l =
    let j : ℕ = 60 - i in
    bit_of_first w ws i (omega arith)
    ∙ ap (test_bit w) (omega arith)
    ∙ sym (test_bit_eighth w j)
    ∙ ap (λ x. test_bit x j) t
    ∙ test_bit_eighth v j
    ∙ ap (test_bit v) (omega arith)
    ∙ sym (bit_of_first v vs i (omega arith))

same_words :
    (a b c a' b' c' : ℕ) → a ≡ a' → b ≡ b' → c ≡ c' → (a == a' && (b == b' && c == c')) ≡ true
same_words a b c a' b' c' x y z = ground arith

three_words :
    (a b c a' b' c' : ℕ) → (a == a' && (b == b' && c == c')) ≡ true → (a ≡ a') × (b ≡ b') × (c ≡ c')
three_words a b c a' b' c' h = (ground arith, ground arith, ground arith)

pub SamePage-refl : (p : StoreKey) → SamePage p p
SamePage-refl (key a b c d) = (same_words a b c a b c refl refl refl, refl)

-- Keys with the same first 253 bits are of one page.
pub Agree-SamePage : (p k : StoreKey) → IsKey p → IsKey k → Agree page_bit p k → SamePage p k
unfolding right AgreeWords
Agree-SamePage (key a b c d) (key a' b' c' d') h k e =
    let ws1 : List ℕ = b ∷ c ∷ d ∷ [] in
    let vs1 : List ℕ = b' ∷ c' ∷ d' ∷ [] in
    let ws2 : List ℕ = c ∷ d ∷ [] in
    let vs2 : List ℕ = c' ∷ d' ∷ [] in
    let ws3 : List ℕ = d ∷ [] in
    let vs3 : List ℕ = d' ∷ [] in
    let e1 : AgreeWords 189 (b ∷ c ∷ d ∷ []) (b' ∷ c' ∷ d' ∷ []) = later_agree 189 a a' ws1 vs1 e in
    let e2 : AgreeWords 125 (c ∷ d ∷ []) (c' ∷ d' ∷ []) = later_agree 125 b b' ws2 vs2 e1 in
    let e3 : AgreeWords 61 (d ∷ []) (d' ∷ []) = later_agree 61 c c' ws3 vs3 e2 in
    let same_a : a ≡ a' = same_first 189 a a' ws1 vs1 h.0 k.0 e in
    let same_b : b ≡ b' = same_first 125 b b' ws2 vs2 h.1.0 k.1.0 e1 in
    let same_c : c ≡ c' = same_first 61 c c' ws3 vs3 h.1.1.0 k.1.1.0 e2 in
    (same_words a b c a' b' c' same_a same_b same_c, same_eighth d d' [] [] h.1.1.1.0 k.1.1.1.0 e3)

pub SamePage-Agree : (p k : StoreKey) → SamePage p k → Agree page_bit p k
unfolding right AgreeWords
SamePage-Agree (key a b c d) (key a' b' c' d') (h, t) =
    let (x, y, z) = three_words a b c a' b' c' h in
    agree_cons 189 a a' (b ∷ c ∷ d ∷ []) (b' ∷ c' ∷ d' ∷ []) x (
      agree_cons 125 b b' (c ∷ d ∷ []) (c' ∷ d' ∷ []) y
        (agree_cons 61 c c' (d ∷ []) (d' ∷ []) z (eighth_agree d d' [] [] t)))

pub within_page-SamePage :
    (p k : StoreKey) → IsKey p → IsKey k → within_page (difference p k) ≡ true → SamePage p k
within_page-SamePage p k h m e = elim (Option-cases (difference p k)) [
  | inl t ↦ subst (SamePage p) (difference-none p k t) (SamePage-refl p)
  | inr (d, t) ↦
      let far : page_bit ≤ d = leb→le page_bit d (rw t at e) in
      Agree-SamePage p k h m (λ i l. (difference-some p k d h m t).1 i (omega arith))
]
