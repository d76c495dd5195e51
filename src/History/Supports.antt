-- ===== src/History/Supports.antt =====
-- src/history.rs: set_support changes one support and no older root.
-- What set_support gives: a history and a root with the new support, in which every other key and
-- every older root reads as before; or none, while a collection is on, and where a new key would need
-- an identity when they are used up.
use chrimp.History.{
  History, HistoryKey, condition_value, history_key, intern_key, put_support, same_history_key,
  same_history_key_iff, set_support, support, write_support,
}
use chrimp.History.Laws.{IsHistory, IsRecorded, IsRoot, support-none, write_support-IsRoot, written}
use chrimp.History.Intern.{Interned, with_key, with_key-Interned}
use chrimp.Condition.Arena.{checked_add_one, ◌>>=◌}
use chrimp.Condition.Handle.{Condition, condition_key, false_condition, pair_key, same, same_iff}
use chrimp.Store.Trie.{Root}
use chrimp.Prelude.{
  Bool, Bool-cases, Option, Option-cases, ap, arith, false, if◌then◌else◌, inl, inr, ltb, ltb→lt,
  none, refl, some, subst, sym, true, ℕ, ◌+◌, ◌<◌, ◌^◌, ◌∙◌, ◌≡◌, ◌≤◌,
}
use chrimp.Map.{lookup, nat_key}

pub data Supports (h : History) (t : Root Condition) (k : HistoryKey) (c : Condition)
    : Option (History × Root Condition) → Type 0 where
  supported :
      (g : History) (u : Root Condition)
      → h.frozen ≡ false
      → IsHistory g
      → IsRoot g u
      → ((j : HistoryKey) → support g u j ≡ (if same_history_key k j then c else support h t j))
      → ((r : Root Condition) → IsRoot h r → IsRoot g r)
      → ((r : Root Condition) (j : HistoryKey) → IsRoot h r → support g r j ≡ support h r j)
      → Supports h t k c (some (g, u))
  under_collection : h.frozen ≡ true → Supports h t k c none
  used_up :
      h.frozen ≡ false
      → lookup k (h.ids) ≡ none
      → same c false_condition ≡ false
      → 2 ^ 64 ≤ h.next_id + 1
      → Supports h t k c none

known_key :
    (h : History) (t : Root Condition) (k : HistoryKey) (c : Condition) (id : ℕ)
    → h.frozen ≡ false
    → IsHistory h
    → IsRoot h t
    → lookup k (h.ids) ≡ some id
    → Supports h t k c (some (h, write_support t id c))
unfolding IsHistory IsRoot IsRecorded
known_key h t k c id z (a, b, l) r e =
    let (q, f, g) = a k id e in
    let small : id < h.next_id = (b id q f).0 in
    let bound : id < 2 ^ 64 = omega arith in
    supported h (write_support t id c) z (a, b, l)
      (write_support-IsRoot h t id c bound ((refl, refl, refl), (q, f)) r)
      (λ j. written h t k id c j (a, b, l) r.0 bound e) (λ u s. s) (λ u j s. refl)

-- A key that is not known has no support, and is not interned to have none.
unknown_false :
    (h : History) (t : Root Condition) (k : HistoryKey) (c : Condition)
    → h.frozen ≡ false
    → IsHistory h
    → IsRoot h t
    → lookup k (h.ids) ≡ none
    → c ≡ false_condition
    → Supports h t k c (some (h, t))
unknown_false h t k c z a r e f =
    supported h t z a r
      (λ j. elim (Bool-cases (same_history_key k j)) [
        | inl x ↦
            support-none h t j
              (ap (λ q. lookup q (h.ids)) (sym ((same_history_key_iff k j).0 x)) ∙ e)
            ∙ rw x (sym f)
        | inr x ↦ rw x refl
      ])
      (λ u s. s) (λ u j s. refl)

known_bound :
    (h : History) (k : HistoryKey) (id : ℕ) → IsHistory h → lookup k (h.ids) ≡ some id → id < 2 ^ 64
unfolding IsHistory
known_bound h k id (a, b, l) e =
    let (q, f, g) = a k id e in let small : id < h.next_id = (b id q f).0 in omega arith

new_key :
    (h g : History) (t : Root Condition) (k : HistoryKey) (c : Condition)
    → h.frozen ≡ false
    → IsRoot h t
    → Interned h k g
    → Supports h t k c (some (g, write_support t (h.next_id) c))
unfolding IsRoot
new_key h g t k c z r (a, e, q, roots, reads) =
    let bound : h.next_id < 2 ^ 64 = known_bound g k (h.next_id) a e in
    supported g (write_support t (h.next_id) c) z a
      (write_support-IsRoot g t (h.next_id) c bound q (roots t r))
      (λ j.
        written g t k (h.next_id) c j a ((roots t r).0) bound e
        ∙ ap (λ s. if same_history_key k j then c else s) (reads t j r))
      roots reads

put_support_new :
    (h : History) (t : Root Condition) (k : HistoryKey) (c : Condition)
    → lookup k (h.ids) ≡ none
    → same c false_condition ≡ false
    → put_support h t k c ≡ (intern_key h k >>= λ p. some (p.0, write_support t p.1 c))
unfolding put_support
put_support_new h t k c e x = rw (e, x, put_support) refl

interning :
    (h : History) (t : Root Condition) (k : HistoryKey) (c : Condition)
    → h.frozen ≡ false
    → same c false_condition ≡ false
    → IsHistory h
    → IsRoot h t
    → lookup k (h.ids) ≡ none
    → Supports h t k c (intern_key h k >>= λ p. some (p.0, write_support t p.1 c))
unfolding intern_key checked_add_one
interning h t k c z y a r e = elim (Bool-cases (ltb (h.next_id + 1) (2 ^ 64))) [
  | inl x ↦
      rw (x, intern_key, checked_add_one)
        (new_key h (with_key h k (h.next_id + 1)) t k c z r
          (with_key-Interned h k (h.next_id + 1) a e (refl, ltb→lt (h.next_id + 1) (2 ^ 64) x)))
  | inr x ↦ rw (x, intern_key, checked_add_one) (used_up z e y (full (h.next_id + 1) (2 ^ 64) x))
]
  where
    full : (m n : ℕ) → ltb m n ≡ false → n ≤ m
    full m n x = ground arith

put_support-Supports :
    (h : History) (t : Root Condition) (k : HistoryKey) (c : Condition)
    → h.frozen ≡ false
    → IsHistory h
    → IsRoot h t
    → Supports h t k c (put_support h t k c)
unfolding put_support
put_support-Supports h t k c z a r = elim (Option-cases (lookup k (h.ids))) [
  | inr (id, e) ↦ rw (e, put_support) (known_key h t k c id z a r e)
  | inl e ↦ elim (Bool-cases (same c false_condition)) [
    | inl x ↦
        rw (e, x, put_support) (unknown_false h t k c z a r e ((same_iff c false_condition).0 x))
    | inr x ↦
        subst (Supports h t k c) (sym (put_support_new h t k c e x)) (interning h t k c z x a r e)
  ]
]

either_support :
    (h : History) (t : Root Condition) (k : HistoryKey) (c : Condition) (b : Bool)
    → (b ≡ true → Supports h t k c none)
    → (b ≡ false → Supports h t k c (put_support h t k c))
    → Supports h t k c (if b then none else put_support h t k c)
either_support h t k c true f g = f refl
either_support h t k c false f g = g refl

-- `set_support` of a well-formed history and a root of it, which the index is taken to contain, fails
-- while a collection is on, and where a key that is not known is to get a support other than FALSE
-- and the next identity, after the one it would get, does not fit in 64 bits. Otherwise the given key
-- has the given support, and every other key the one it had; the history stays well formed, and
-- every root of it remains a root and reads as before, so that staged and suspended roots are not
-- disturbed.
pub set_support-Supports :
    (h : History) (t : Root Condition) (k : HistoryKey) (c : Condition)
    → IsHistory h
    → IsRoot h t
    → Supports h t k c (set_support h t k c)
unfolding set_support
set_support-Supports h t k c a r =
    either_support h t k c h.frozen (λ z. under_collection z)
      (λ z. put_support-Supports h t k c z a r)
