-- ===== src/Store/Prefix.antt =====
-- src/store.rs: the subtree of a prefix of whole words, and a tree split in two.
use chrimp.Store.Differences.{below-none, below-some}
use chrimp.Store.Order.{Agree, difference-some}
use Prim.Native.Nat.{min}
use chrimp.Prelude.{
  Bool, Bool-cases, Option, ap, arith, false, if◌then◌else◌, inl, inr, leb, leb→le, none, refl,
  some, sym, true, true≢false, ℕ, ◌*◌, ◌<◌, ◌∙◌, ◌≡◌, ◌≤◌,
}
use chrimp.Map.{nat_key}
use chrimp.Store.Key.{IsKey, StoreKey, difference, right}
use chrimp.Store.Trie.{Root, below, branch, empty, get, is_empty, leaf, page, page_bit, prefix_of}
use chrimp.Store.Shape.{IsTrie, Keys}
use chrimp.Store.Reads.{IsTrie-prefix, Keys-Agree, Keys-imp, get-absent, get-branch, node_bit}

-- `(d as usize) < bit.min(words * 64)`, of the first bit in which a node's prefix differs.
abbrev pub outside_prefix : ℕ → StoreKey → StoreKey → ℕ → Bool
outside_prefix bit p prefix n = elim (below (min bit (n * 64)) (difference p prefix)) [
  | none ↦ false
  | some d ↦ true
]

least_first : (a b : ℕ) → b ≤ a → min a b ≡ b
least_first a b h = ground arith

le→leb : (a b : ℕ) → a ≤ b → leb a b ≡ true
le→leb a b h = ground arith

module _ {V : Type 0} where
  -- `prefix_root_uncached`; none where it meets a leaf or a page that is no branch to descend.
  unfoldable pub prefix_root : Root V → StoreKey → ℕ → Option (Root V)
  prefix_root empty prefix n = some empty
  prefix_root (leaf k v) prefix n =
      if outside_prefix 256 k prefix n
      then some empty
      else if leb (n * 64) 256
      then some (leaf k v)
      else none
  prefix_root (page p es) prefix n =
      if outside_prefix page_bit p prefix n
      then some empty
      else if leb (n * 64) page_bit
      then some (page p es)
      else none
  prefix_root (branch m p b l r) prefix n =
      let rest : Option (Root V) = elim (right prefix b) [
        | true ↦ prefix_root r prefix n
        | false ↦ prefix_root l prefix n
      ] in
      if outside_prefix b p prefix n
      then some empty
      else if leb (n * 64) b
      then some (branch m p b l r)
      else rest

  -- The children of a branch with more leaves than a limit.
  unfoldable pub split_prefix : Root V → ℕ → Option (Root V × Root V)
  split_prefix (branch m p b l r) limit = if leb m limit then none else some (l, r)
  split_prefix _ limit = none

  -- A subtree with all keys of a prefix and no others, which reads as the whole.
  abbrev pub IsPrefixRoot : Root V → StoreKey → ℕ → Root V → Type 0
  IsPrefixRoot t prefix n u =
      IsTrie u × Keys (Agree n prefix) u × ((j : StoreKey) → Agree n prefix j → get u j ≡ get t j)

  -- A node that is not outside the prefix and tests no bit of it.
  taken :
      (t : Root V) (prefix : StoreKey) (n : ℕ)
      → IsTrie t
      → is_empty t ≡ false
      → IsKey prefix
      → outside_prefix (node_bit t) (prefix_of t) prefix n ≡ false
      → n * 64 ≤ node_bit t
      → IsPrefixRoot t prefix (n * 64) t
  taken t prefix n h e k x l = (
    h,
    Keys-imp (Agree (node_bit t) (prefix_of t)) (Agree (n * 64) prefix) t
        (λ q a i m. sym (near i m) ∙ a i (omega arith)) (Keys-Agree t h),
    λ j a. refl,
  )
    where
      no_difference : (o : Option ℕ) → (elim o [ none ↦ false | some d ↦ true ]) ≡ false → o ≡ none
      no_difference none y = refl
      no_difference (some d) y = absurd (true≢false y)

      near : Agree (n * 64) (prefix_of t) prefix
      near = below-none (n * 64) (prefix_of t) prefix (IsTrie-prefix t e h) k (
          ap (λ m. below m (difference (prefix_of t) prefix))
            (sym (least_first (node_bit t) (n * 64) l))
          ∙ no_difference (below (min (node_bit t) (n * 64)) (difference (prefix_of t) prefix)) x)

  -- A node outside the prefix has none of its keys.
  left_out :
      (t : Root V) (prefix : StoreKey) (n : ℕ)
      → IsTrie t
      → is_empty t ≡ false
      → IsKey prefix
      → outside_prefix (node_bit t) (prefix_of t) prefix n ≡ true
      → IsPrefixRoot t prefix (n * 64) empty
  unfolding IsTrie Keys get
  left_out t prefix n h e k x =
      let (d, y) =
        a_difference (below (min (node_bit t) (n * 64)) (difference (prefix_of t) prefix)) x in
      let (u, l) = below-some (min (node_bit t) (n * 64)) d (difference (prefix_of t) prefix) y in
      let (a, b, c) = difference-some (prefix_of t) prefix d (IsTrie-prefix t e h) k u in
      (
        tt,
        tt,
        λ j s. sym (
            get-absent (Agree (node_bit t) (prefix_of t)) t j (Keys-Agree t h) (λ q. c (
              q d (less_left d (node_bit t) (n * 64) l)
              ∙ sym (s d (less_right d (node_bit t) (n * 64) l))))),
      )
    where
      a_difference :
          (o : Option ℕ) → (elim o [ none ↦ false | some d ↦ true ]) ≡ true → (d : ℕ) × (o ≡ some d)
      a_difference none y = absurd (true≢false (sym y))
      a_difference (some d) y = (d, refl)

      less_left : (d a b : ℕ) → d < min a b → d < a
      less_left d a b l = ground arith

      less_right : (d a b : ℕ) → d < min a b → d < b
      less_right d a b l = ground arith

  -- `prefix_root_uncached`, for a prefix of at most three words, always ends at a subtree: a trie
  -- all of whose keys begin with the words of the prefix, and which reads at every key that begins
  -- with them as the whole trie does.
  pub prefix_root-IsPrefixRoot :
      (t : Root V) (prefix : StoreKey) (n : ℕ)
      → IsTrie t
      → IsKey prefix
      → n ≤ 3
      → (u : Root V) × (prefix_root t prefix n ≡ some u) × IsPrefixRoot t prefix (n * 64) u
  unfolding prefix_root IsTrie Keys get
  prefix_root-IsPrefixRoot empty prefix n h k l = (empty, refl, (tt, tt, λ j a. refl))
  prefix_root-IsPrefixRoot (leaf q v) prefix n h k l =
      elim (Bool-cases (outside_prefix 256 q prefix n)) [
        | inl x ↦ (empty, rw (x, prefix_root) refl, left_out (leaf q v) prefix n h refl k x)
        | inr x ↦
            let fits : leb (n * 64) 256 ≡ true = le→leb (n * 64) 256 (omega arith) in
            (
              leaf q v,
              rw (x, fits, prefix_root) refl,
              taken (leaf q v) prefix n h refl k x (omega arith),
            )
      ]
  prefix_root-IsPrefixRoot (page p es) prefix n h k l =
      elim (Bool-cases (outside_prefix page_bit p prefix n)) [
        | inl x ↦ (empty, rw (x, prefix_root) refl, left_out (page p es) prefix n h refl k x)
        | inr x ↦
            let fits : leb (n * 64) page_bit ≡ true = le→leb (n * 64) page_bit (omega arith) in
            (
              page p es,
              rw (x, fits, prefix_root) refl,
              taken (page p es) prefix n h refl k x (omega arith),
            )
      ]
  prefix_root-IsPrefixRoot (branch m p b l r) prefix n h k small =
      elim (Bool-cases (outside_prefix b p prefix n)) [
        | inl x ↦ (empty, rw (x, prefix_root) refl, left_out (branch m p b l r) prefix n h refl k x)
        | inr x ↦ elim (Bool-cases (leb (n * 64) b)) [
          | inl y ↦ (
            branch m p b l r,
            rw (x, y, prefix_root) refl,
            taken (branch m p b l r) prefix n h refl k x (leb→le (n * 64) b y),
          )
          | inr y ↦ elim (Bool-cases (right prefix b)) [
            | inl z ↦
                let (u, e, (f, g, w)) = prefix_root-IsPrefixRoot r prefix n h.5.1 k small in
                (
                  u,
                  rw (x, y, z, e, prefix_root) refl,
                  (
                    f,
                    g,
                    λ j a.
                        w j a
                        ∙ sym (
                            get-branch m p b l r j ∙ rw (sym (a b (before b (n * 64) y)) ∙ z) refl),
                  ),
                )
            | inr z ↦
                let (u, e, (f, g, w)) = prefix_root-IsPrefixRoot l prefix n h.5.0 k small in
                (
                  u,
                  rw (x, y, z, e, prefix_root) refl,
                  (
                    f,
                    g,
                    λ j a.
                        w j a
                        ∙ sym (
                            get-branch m p b l r j ∙ rw (sym (a b (before b (n * 64) y)) ∙ z) refl),
                  ),
                )
          ]
        ]
      ]
    where
      before : (b m : ℕ) → leb m b ≡ false → b < m
      before b m y = ground arith
