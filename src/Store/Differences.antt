-- ===== src/Store/Differences.antt =====
-- src/store.rs: where a key differs from the prefix of a node.
use chrimp.Prelude.{
  Bool, Bool-cases, Option, Option-cases, ap, arith, false, inl, inr, leb, none, not, refl, some,
  subst, true, true≢false, ℕ, ◌&&◌, ◌<◌, ◌≡◌, ◌≤◌,
}
use chrimp.Map.{nat_key}
use chrimp.Store.Key.{IsKey, StoreKey, difference, right}
use chrimp.Store.Order.{Agree, difference-none, difference-some}
use chrimp.Store.Trie.{below, page_bit, same_key, within_page}
use chrimp.Store.Entries.{same_key_iff}

pub opposite : (a b : Bool) → (a ≡ b → ⊥) → a ≡ not b
opposite true true h = absurd (h refl)
opposite true false h = refl
opposite false true h = refl
opposite false false h = absurd (h refl)

pub below-some : (b s : ℕ) (o : Option ℕ) → below b o ≡ some s → (o ≡ some s) × (s < b)
below-some b s none e = cc
below-some b s (some d) e = ground arith

not_below : (b d : ℕ) → below b (some d) ≡ none → b ≤ d
not_below b d e = ground arith

-- A key that does not differ from a prefix before a bit agrees with it up to there.
pub below-none :
    (b : ℕ) (p k : StoreKey) → IsKey p → IsKey k → below b (difference p k) ≡ none → Agree b p k
below-none b p k h m e = elim (Option-cases (difference p k)) [
  | inl x ↦ subst (Agree b p) (difference-none p k x) (λ i l. refl)
  | inr (d, x) ↦
      let far : b ≤ d = not_below b d (rw x at e) in
      λ i l. (difference-some p k d h m x).1 i (omega arith)
]

-- Keys that do not differ in their bits are the same.
pub below_all : (p k : StoreKey) → IsKey p → IsKey k → below 256 (difference p k) ≡ none → p ≡ k
below_all p k h m e = elim (Option-cases (difference p k)) [
  | inl x ↦ difference-none p k x
  | inr (d, x) ↦
      let short : d < 256 = (difference-some p k d h m x).0 in
      let far : 256 ≤ d = not_below 256 d (rw x at e) in absurd (omega arith)
]

-- A difference that no page holds is before the bits of a page.
pub near :
    (p k : StoreKey) (s : ℕ)
    → IsKey p
    → IsKey k
    → difference p k ≡ some s
    → (not (same_key p k) && within_page (difference p k)) ≡ false
    → s < page_bit
near p k s h m e x = elim (Bool-cases (same_key p k)) [
  | inl y ↦
      let differ : right p s ≡ right k s → ⊥ = (difference-some p k s h m e).2 in
      absurd (differ (ap (λ j. right j s) ((same_key_iff p k).0 y)))
  | inr y ↦ far s (rw (y, e) at x)
]
  where
    far : (s : ℕ) → leb page_bit s ≡ false → s < page_bit
    far s e = ground arith

pub beyond :
    (p k : StoreKey)
    → within_page (difference p k) ≡ false
    → below page_bit (difference p k) ≡ none
    → ⊥
beyond p k x y = elim (Option-cases (difference p k)) [
  | inl e ↦ true≢false (rw e at x)
  | inr (d, e) ↦ clash d (rw e at x) (rw e at y)
]
  where
    clash : (d : ℕ) → within_page (some d) ≡ false → below page_bit (some d) ≡ none → ⊥
    clash d x y = ground arith
