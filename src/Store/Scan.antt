-- ===== src/Store/Scan.antt =====
-- src/store.rs: what the scan of a batch keeps.
use chrimp.Store.Entries.{same_key_iff}
use chrimp.Prelude.{
  Bool, Bool-cases, List, Option, [], ap, false, if◌then◌else◌, inl, inr, none, refl, some, subst,
  sym, true, true≢false, ◌||◌, ◌∙◌, ◌∷◌, ◌≡◌, ◌⊎◌,
}
use chrimp.Map.{nat_key}
use chrimp.Store.Key.{StoreKey}
use chrimp.Store.Trie.{Root, Value, Write, get, same_key, same_value}
use chrimp.Store.Coalesce.{
  IsDistinct, Seen, changed, coalesce, first_write, first_write-reversed, has_key, inline,
  last_write, or_else, reversed, scan, see, see_lem, seen_keys,
}

module _ {V : Type 0} ⦃e : Value V⦄ where
  Covers : Seen → List (Write V) → Type 0
  Covers s kept = (j : StoreKey) → has_key j (seen_keys s) ≡ false → first_write j kept ≡ none

  -- The keys seen and one more cover the writes kept, and one of that key.
  Covers-more :
      (s : Seen) (k : StoreKey) (kept : List (Write V)) → Covers s kept → Covers (see s k).1 kept
  unfolding Covers
  Covers-more s k kept h j x =
      h j (second (same_key k j) (has_key j (seen_keys s)) (sym ((see_lem s k).1 j) ∙ x))
    where
      second : (a b : Bool) → (a || b) ≡ false → b ≡ false
      second true b x = absurd (true≢false x)
      second false b x = x

  Covers-added :
      (s : Seen) (k : StoreKey) (o : Option V) (kept : List (Write V))
      → Covers s kept
      → Covers (see s k).1 ((k, o) ∷ kept)
  unfolding Covers
  Covers-added s k o kept h j x =
      rw (first_false (same_key k j) (has_key j (seen_keys s)) (sym ((see_lem s k).1 j) ∙ x))
        (Covers-more s k kept h j x)
    where
      first_false : (a b : Bool) → (a || b) ≡ false → a ≡ false
      first_false true b x = absurd (true≢false x)
      first_false false b x = refl

  scan_skip :
      (t : Root V) (s : Seen) (k : StoreKey) (o : Option V) (ws kept : List (Write V))
      → ((see s k).0 ≡ false) ⊎ (same_value (get t k) o ≡ true)
      → scan t s ((k, o) ∷ ws) kept ≡ scan t (see s k).1 ws kept
  unfolding scan
  scan_skip t s k o ws kept (inl x) = rw (x, scan) refl
  scan_skip t s k o ws kept (inr x) = elim (Bool-cases ((see s k).0)) [
    | inl y ↦ rw (y, x, scan) refl
    | inr y ↦ rw (y, scan) refl
  ]

  scan_add :
      (t : Root V) (s : Seen) (k : StoreKey) (o : Option V) (ws kept : List (Write V))
      → (see s k).0 ≡ true
      → same_value (get t k) o ≡ false
      → scan t s ((k, o) ∷ ws) kept ≡ scan t (see s k).1 ws ((k, o) ∷ kept)
  unfolding scan
  scan_add t s k o ws kept x y = rw (x, y, scan) refl

  -- What a scan keeps of a key: what was kept of it, if it was seen, and else its first write, if
  -- that changes the trie.
  Scanned : Root V → Seen → List (Write V) → List (Write V) → StoreKey → Type 0
  Scanned t s ws kept j = first_write j (scan t s ws kept) ≡ (
      if has_key j (seen_keys s) then first_write j kept else changed (get t j) (first_write j ws))

  skip_lem :
      (t : Root V) (s : Seen) (k : StoreKey) (o : Option V) (ws kept : List (Write V))
      (j : StoreKey)
      → Covers s kept
      → (has_key k (seen_keys s) ≡ true) ⊎ (same_value (get t k) o ≡ true)
      → Scanned t (see s k).1 ws kept j
      → first_write j (scan t (see s k).1 ws kept) ≡ (
          if has_key j (seen_keys s)
          then first_write j kept
          else changed (get t j) (if same_key k j then some o else first_write j ws))
  unfolding Scanned Covers
  skip_lem t s k o ws kept j h x i =
      i
      ∙ ap (λ b. if b then first_write j kept else changed (get t j) (first_write j ws))
          ((see_lem s k).1 j)
      ∙ elim (Bool-cases (has_key j (seen_keys s))) [
        | inl y ↦ rw y (either_true (same_key k j))
        | inr y ↦ elim (Bool-cases (same_key k j)) [
          | inl z ↦ rw (y, z) (h j y ∙ sym (unchanged ((same_key_iff k j).0 z) y))
          | inr z ↦ rw (y, z) refl
        ]
      ]
    where
      either_true :
          (a : Bool)
          → (if a || true then first_write j kept else changed (get t j) (first_write j ws))
            ≡ first_write j kept
      either_true true = refl
      either_true false = refl

      unchanged :
          k ≡ j
          → has_key j (seen_keys s) ≡ false
          → (if same_value (get t j) o then none else some o) ≡ none
      unchanged c y = elim x [
        | inl u ↦ absurd (true≢false (sym (subst (λ q. has_key q (seen_keys s) ≡ true) c u) ∙ y))
        | inr u ↦ rw (subst (λ q. same_value (get t q) o ≡ true) c u) refl
      ]

  add_lem :
      (t : Root V) (s : Seen) (k : StoreKey) (o : Option V) (ws kept : List (Write V))
      (j : StoreKey)
      → has_key k (seen_keys s) ≡ false
      → same_value (get t k) o ≡ false
      → Scanned t (see s k).1 ws ((k, o) ∷ kept) j
      → first_write j (scan t (see s k).1 ws ((k, o) ∷ kept)) ≡ (
          if has_key j (seen_keys s)
          then first_write j kept
          else changed (get t j) (if same_key k j then some o else first_write j ws))
  unfolding Scanned
  add_lem t s k o ws kept j x y i =
      i
      ∙ ap
          (λ b.
            if b
            then (if same_key k j then some o else first_write j kept)
            else changed (get t j) (first_write j ws))
          ((see_lem s k).1 j)
      ∙ elim (Bool-cases (same_key k j)) [
        | inl z ↦
            let c : k ≡ j = (same_key_iff k j).0 z in
            rw
              (
                z,
                subst (λ q. has_key q (seen_keys s) ≡ false) c x,
                subst (λ q. same_value (get t q) o ≡ false) c y,
              )
              refl
        | inr z ↦ rw z refl
      ]

  scan_lem :
      (t : Root V) (s : Seen) (ws kept : List (Write V)) (j : StoreKey)
      → Covers s kept
      → Scanned t s ws kept j
  unfolding Scanned Covers scan
  scan_lem t s [] kept j h = elim (Bool-cases (has_key j (seen_keys s))) [
    | inl x ↦ rw x refl
    | inr x ↦ rw x (h j x)
  ]
  scan_lem t s ((k, o) ∷ ws) kept j h = elim (Bool-cases (has_key k (seen_keys s))) [
    | inl x ↦
        ap (first_write j) (scan_skip t s k o ws kept (inl ((see_lem s k).0 ∙ rw x refl)))
        ∙ skip_lem t s k o ws kept j h (inl x)
            (scan_lem t (see s k).1 ws kept j (Covers-more s k kept h))
    | inr x ↦ elim (Bool-cases (same_value (get t k) o)) [
      | inl y ↦
          ap (first_write j) (scan_skip t s k o ws kept (inr y))
          ∙ skip_lem t s k o ws kept j h (inr y)
              (scan_lem t (see s k).1 ws kept j (Covers-more s k kept h))
      | inr y ↦
          ap (first_write j) (scan_add t s k o ws kept ((see_lem s k).0 ∙ rw x refl) y)
          ∙ add_lem t s k o ws kept j x y
              (scan_lem t (see s k).1 ws ((k, o) ∷ kept) j (Covers-added s k o kept h))
    ]
  ]

  scan-IsDistinct :
      (t : Root V) (s : Seen) (ws kept : List (Write V))
      → Covers s kept
      → IsDistinct kept
      → IsDistinct (scan t s ws kept)
  unfolding scan Covers
  scan-IsDistinct t s [] kept h d = d
  scan-IsDistinct t s ((k, o) ∷ ws) kept h d = elim (Bool-cases (has_key k (seen_keys s))) [
    | inl x ↦
        subst IsDistinct (sym (scan_skip t s k o ws kept (inl ((see_lem s k).0 ∙ rw x refl))))
          (scan-IsDistinct t (see s k).1 ws kept (Covers-more s k kept h) d)
    | inr x ↦ elim (Bool-cases (same_value (get t k) o)) [
      | inl y ↦
          subst IsDistinct (sym (scan_skip t s k o ws kept (inr y)))
            (scan-IsDistinct t (see s k).1 ws kept (Covers-more s k kept h) d)
      | inr y ↦
          subst IsDistinct (sym (scan_add t s k o ws kept ((see_lem s k).0 ∙ rw x refl) y)) (
            scan-IsDistinct t (see s k).1 ws ((k, o) ∷ kept) (Covers-added s k o kept h) (h k x, d))
    ]
  ]

  -- Of the writes of a batch, the ones kept are of distinct keys, and a key has one exactly when
  -- its last write changes what the trie holds at it: then that write is the one kept.
  pub coalesce_lem :
      (t : Root V) (ws : List (Write V))
      → IsDistinct (coalesce t ws)
        × ((j : StoreKey) → first_write j (coalesce t ws) ≡ changed (get t j) (last_write j ws))
  unfolding coalesce Scanned Covers
  coalesce_lem t ws = (
    scan-IsDistinct t (inline []) (reversed ws []) [] (λ j x. refl) tt,
    λ j.
        scan_lem t (inline []) (reversed ws []) [] j (λ i x. refl)
        ∙ ap (changed (get t j)) (first_write-reversed j ws [] ∙ or_none (last_write j ws)),
  )
    where
      or_none : (p : Option (Option V)) → or_else p none ≡ p
      or_none none = refl
      or_none (some o) = refl
