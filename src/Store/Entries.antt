-- ===== src/Store/Entries.antt =====
-- src/store.rs: the entries of a page under reads and writes.
use chrimp.Prelude.{
  ==_iff, Bool-cases, [], arith, false, inl, inr, length, ltb, ltb→lt, refl, some, subst, suc, sym,
  true, ℕ, ◌&&◌, ◌*◌, ◌+◌, ◌/◌, ◌<◌, ◌==◌, ◌^◌, ◌↔◌, ◌∷◌, ◌≡◌, ◌≤◌,
}
use chrimp.Map.{Map, insert, lookup, nat_key, remove}
use chrimp.Store.Key.{IsKey, StoreKey, key, last_word, page_key}
use chrimp.Store.Trie.{same_key, same_prefix}
use chrimp.Store.Shape.{AllEntries, IsEntries, SamePage}
use chrimp.Store.Pages.{SamePage-refl}

pub same_key_iff : (p k : StoreKey) → (same_key p k ≡ true) ↔ (p ≡ k)
same_key_iff (key a b c d) (key a' b' c' d') = (λ h. ground arith, λ h. ground arith)

-- A key of a page is its prefix with a tail.
pub same_key-page_key :
    (p j : StoreKey) (t : ℕ) → same_key (page_key p t) j ≡ (same_prefix p j && t == last_word j)
unfolding page_key
same_key-page_key (key a b c d) (key a' b' c' d') t = ground arith

pub page_key-last : (p j : StoreKey) → same_prefix p j ≡ true → page_key p (last_word j) ≡ j
unfolding page_key
page_key-last (key a b c d) (key a' b' c' d') h = ground arith

pub last_word-page_key : (p : StoreKey) (t : ℕ) → last_word (page_key p t) ≡ t
unfolding page_key
last_word-page_key (key a b c d) t = refl

pub same_prefix-page_key : (p j : StoreKey) (t : ℕ) → same_prefix (page_key p t) j ≡ same_prefix p j
unfolding page_key
same_prefix-page_key (key a b c d) (key a' b' c' d') t = refl

pub page_key-IsKey : (p : StoreKey) (t : ℕ) → IsKey p → t < 2 ^ 64 → IsKey (page_key p t)
unfolding page_key
page_key-IsKey (key a b c d) t h k = (h.0, (h.1.0, (h.1.1.0, (k, tt))))

pub page_key-SamePage : (p : StoreKey) (t : ℕ) → t / 8 ≡ last_word p / 8 → SamePage p (page_key p t)
unfolding page_key
page_key-SamePage (key a b c d) t h = ((SamePage-refl (key a b c d)).0, sym h)

pub last_word-lt : (p : StoreKey) → IsKey p → last_word p < 2 ^ 64
last_word-lt (key a b c d) h = h.1.1.1.0

module _ {V : Type 0} where
  pub insert-IsEntries :
      (q low t : ℕ) (v : V) (es : Map ℕ V)
      → low ≤ t
      → t / 8 ≡ q
      → t < 2 ^ 64
      → IsEntries q low es
      → IsEntries q low (insert t v es)
  unfolding insert
  insert-IsEntries q low t v [] l h m k = (l, h, m, tt)
  insert-IsEntries q low t v ((s, w) ∷ es) l h m (a, b, c, k) = elim (Bool-cases (s == t)) [
    | inl x ↦ rw x (l, h, m, subst (λ i. IsEntries q (suc i) es) ((==_iff s t).0 x) k)
    | inr x ↦ elim (Bool-cases (ltb t s)) [
      | inl y ↦ rw (x, y) (l, h, m, (ltb→lt t s y, b, c, k))
      | inr y ↦ rw (x, y) (a, b, c, insert-IsEntries q (suc s) t v es (later s t x y) h m k)
    ]
  ]
    where
      later : (i j : ℕ) → (i == j) ≡ false → ltb j i ≡ false → suc i ≤ j
      later i j x y = ground arith

  weaken-IsEntries :
      (q low low' : ℕ) (es : Map ℕ V) → low' ≤ low → IsEntries q low es → IsEntries q low' es
  weaken-IsEntries q low low' [] h k = tt
  weaken-IsEntries q low low' ((s, w) ∷ es) h (a, b, c, k) = (omega arith, b, c, k)

  pub remove-IsEntries :
      (q low t : ℕ) (es : Map ℕ V) → IsEntries q low es → IsEntries q low (remove t es)
  unfolding remove
  remove-IsEntries q low t [] k = tt
  remove-IsEntries q low t ((s, w) ∷ es) (a, b, c, k) = elim (Bool-cases (s == t)) [
    | inl x ↦ rw x (
        weaken-IsEntries q (suc s) low (remove t es) (omega arith)
          (remove-IsEntries q (suc s) t es k))
    | inr x ↦ rw x (a, b, c, remove-IsEntries q (suc s) t es k)
  ]

  pub insert-AllEntries :
      (P : StoreKey → Type 0) (p : StoreKey) (t : ℕ) (v : V) (es : Map ℕ V)
      → P (page_key p t)
      → AllEntries P p es
      → AllEntries P p (insert t v es)
  unfolding insert
  insert-AllEntries P p t v [] h k = (h, tt)
  insert-AllEntries P p t v ((s, w) ∷ es) h (a, k) = elim (Bool-cases (s == t)) [
    | inl x ↦ rw x (h, k)
    | inr x ↦ elim (Bool-cases (ltb t s)) [
      | inl y ↦ rw (x, y) (h, (a, k))
      | inr y ↦ rw (x, y) (a, insert-AllEntries P p t v es h k)
    ]
  ]

  pub remove-AllEntries :
      (P : StoreKey → Type 0) (p : StoreKey) (t : ℕ) (es : Map ℕ V)
      → AllEntries P p es
      → AllEntries P p (remove t es)
  unfolding remove
  remove-AllEntries P p t [] k = tt
  remove-AllEntries P p t ((s, w) ∷ es) (a, k) = elim (Bool-cases (s == t)) [
    | inl x ↦ rw x (remove-AllEntries P p t es k)
    | inr x ↦ rw x (a, remove-AllEntries P p t es k)
  ]

  -- What is found among the entries has the property of all keys.
  pub lookup-AllEntries :
      (P : StoreKey → Type 0) (p : StoreKey) (t : ℕ) (v : V) (es : Map ℕ V)
      → AllEntries P p es
      → lookup t es ≡ some v
      → P (page_key p t)
  unfolding lookup
  lookup-AllEntries P p t v [] k e = cc
  lookup-AllEntries P p t v ((s, w) ∷ es) (a, k) e = elim (Bool-cases (s == t)) [
    | inl x ↦ subst (λ i. P (page_key p i)) ((==_iff s t).0 x) a
    | inr x ↦ lookup-AllEntries P p t v es k (rw x at e)
  ]

  -- The keys of a page's entries are keys of its page.
  pub IsEntries-AllEntries :
      (P : StoreKey → Type 0) (p : StoreKey) (low : ℕ) (es : Map ℕ V)
      → ((t : ℕ) → t / 8 ≡ last_word p / 8 → t < 2 ^ 64 → P (page_key p t))
      → IsEntries (last_word p / 8) low es
      → AllEntries P p es
  IsEntries-AllEntries P p low [] h k = tt
  IsEntries-AllEntries P p low ((t, v) ∷ es) h (a, b, c, k) =
      (h t b c, IsEntries-AllEntries P p (suc t) es h k)

  -- A page never has more than eight entries.
  pub IsEntries-bound :
      (q low : ℕ) (es : Map ℕ V)
      → IsEntries q low es
      → 8 * q ≤ low
      → low ≤ 8 * q + 8
      → length es + low ≤ 8 * q + 8
  IsEntries-bound q low [] k h l = omega arith
  IsEntries-bound q low ((t, v) ∷ es) (a, b, c, k) h l =
      omega (arith, IsEntries-bound q (suc t) es k (omega arith) (omega arith))
