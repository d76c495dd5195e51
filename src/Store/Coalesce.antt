-- ===== src/Store/Coalesce.antt =====
-- src/store.rs: the first part of `batch`, which keeps the last write of each key that changes the
use chrimp.Store.Entries.{same_key_iff}
use chrimp.Prelude.{
  Bool, Bool-cases, List, Option, [], false, if◌then◌else◌, inl, inr, length, ltb, none, not, refl,
  some, subst, true, ℕ, ◌||◌, ◌∙◌, ◌∷◌, ◌≡◌,
}
use chrimp.Map.{nat_key}
use chrimp.Store.Key.{StoreKey}
use chrimp.Store.Trie.{Root, Value, Write, get, same_key, same_value}

-- trie. A set of the standard library is the list of its members.
abbrev pub inline_keys : ℕ
inline_keys = 8

-- The keys seen: up to eight in an array, and then in a set.
pub data Seen : Type 0 where
  inline : List StoreKey → Seen
  promoted : List StoreKey → Seen

abbrev pub has_key : StoreKey → List StoreKey → Bool
has_key k [] = false
has_key k (j ∷ ks) = same_key j k || has_key k ks

-- Whether a key is fresh, and the keys seen with it.
unfoldable pub see : Seen → StoreKey → Bool × Seen
see (inline ks) k =
    if has_key k ks
    then (false, inline ks)
    else if ltb (length ks) inline_keys
    then (true, inline (k ∷ ks))
    else (true, promoted (k ∷ ks))
see (promoted ks) k = if has_key k ks then (false, promoted ks) else (true, promoted (k ∷ ks))

abbrev pub seen_keys : Seen → List StoreKey
seen_keys (inline ks) = ks
seen_keys (promoted ks) = ks

known_key :
    (ks : List StoreKey) (k j : StoreKey)
    → has_key k ks ≡ true
    → has_key j ks ≡ (same_key k j || has_key j ks)
known_key ks k j h = elim (Bool-cases (same_key k j)) [
  | inl x ↦ rw x (subst (λ q. has_key q ks ≡ true) ((same_key_iff k j).0 x) h)
  | inr x ↦ rw x refl
]

-- A key is fresh where it was not seen, and then the keys seen are those and it.
pub see_lem :
    (s : Seen) (k : StoreKey)
    → ((see s k).0 ≡ not (has_key k (seen_keys s)))
      × ((j : StoreKey)
          → has_key j (seen_keys (see s k).1) ≡ (same_key k j || has_key j (seen_keys s)))
unfolding see
see_lem (inline ks) k = elim (Bool-cases (has_key k ks)) [
  | inl x ↦ rw x (refl, λ j. known_key ks k j x)
  | inr x ↦ elim (Bool-cases (ltb (length ks) inline_keys)) [
    | inl y ↦ rw (x, y) (refl, λ j. refl)
    | inr y ↦ rw (x, y) (refl, λ j. refl)
  ]
]
see_lem (promoted ks) k = elim (Bool-cases (has_key k ks)) [
  | inl x ↦ rw x (refl, λ j. known_key ks k j x)
  | inr x ↦ rw x (refl, λ j. refl)
]

module _ {V : Type 0} where
  abbrev pub reversed : List (Write V) → List (Write V) → List (Write V)
  reversed [] acc = acc
  reversed (w ∷ ws) acc = reversed ws (w ∷ acc)

  abbrev pub first_write : StoreKey → List (Write V) → Option (Option V)
  first_write j [] = none
  first_write j ((k, o) ∷ ws) = if same_key k j then some o else first_write j ws

  abbrev pub or_else : Option (Option V) → Option (Option V) → Option (Option V)
  or_else none p = p
  or_else (some o) p = some o

  -- The write of a key that counts.
  abbrev pub last_write : StoreKey → List (Write V) → Option (Option V)
  last_write j [] = none
  last_write j ((k, o) ∷ ws) = or_else (last_write j ws) (if same_key k j then some o else none)

  pub first_write-reversed :
      (j : StoreKey) (ws acc : List (Write V))
      → first_write j (reversed ws acc) ≡ or_else (last_write j ws) (first_write j acc)
  first_write-reversed j [] acc = refl
  first_write-reversed j ((k, o) ∷ ws) acc =
      first_write-reversed j ws ((k, o) ∷ acc)
      ∙ cases (last_write j ws) (same_key k j) (first_write j acc)
    where
      cases :
          (p : Option (Option V)) (b : Bool) (q : Option (Option V))
          → or_else p (if b then some o else q) ≡ or_else (or_else p (if b then some o else none)) q
      cases none true q = refl
      cases none false q = refl
      cases (some p) b q = refl

  -- No two writes are of one key.
  abbrev pub IsDistinct : List (Write V) → Type 0
  IsDistinct [] = Unit {0}
  IsDistinct ((k, o) ∷ ws) = (first_write k ws ≡ none) × IsDistinct ws

module _ {V : Type 0} ⦃e : Value V⦄ where
  -- The scan from the last write to the first: the writes kept are put before those kept so far.
  unfoldable pub scan : Root V → Seen → List (Write V) → List (Write V) → List (Write V)
  unfolding see get
  scan t s [] kept = kept
  scan t s ((k, o) ∷ ws) kept =
      let (is_new, seen) = see s k in
      let skipped : List (Write V) = scan t seen ws kept in
      let added : List (Write V) = scan t seen ws ((k, o) ∷ kept) in
      if not is_new then skipped else if same_value (get t k) o then skipped else added

  -- The writes that `batch` sorts and applies.
  unfoldable pub coalesce : Root V → List (Write V) → List (Write V)
  unfolding scan
  coalesce t ws = scan t (inline []) (reversed ws []) []

  abbrev pub changed : Option V → Option (Option V) → Option (Option V)
  changed v none = none
  changed v (some o) = if same_value v o then none else some o
