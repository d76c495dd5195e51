-- ===== src/Store/PageArray.antt =====
-- src/store.rs: `PageEntries`, the array of a page's entries. A failed assertion, or an index out of
-- range, is `none`.
use chrimp.Condition.Arena.{◌>>=◌}
use chrimp.Prelude.{
  List, Option, [], get_elem?, if◌then◌else◌, leb, ltb, none, some, suc, zero, ℕ, ◌&&◌, ◌+◌, ◌-◌,
  ◌∷◌,
}
use chrimp.Map.{nat_key}
use chrimp.Store.Trie.{page_capacity}

pub record PageEntries (A : Type 0) : Type 0 where
  pub slots : List A
  pub len : ℕ

module _ {A : Type 0} where
  -- `slots[i] = x`.
  abbrev pub set_at : ℕ → A → List A → Option (List A)
  set_at i x [] = none
  set_at zero x (y ∷ ys) = some (x ∷ ys)
  set_at (suc i) x (y ∷ ys) = do zs ← set_at i x ys; some (y ∷ zs)

  -- `for i in (position..position + n).rev() { slots[i + 1] = slots[i] }`.
  unfoldable pub shift_up : ℕ → ℕ → List A → Option (List A)
  shift_up position zero s = some s
  shift_up position (suc n) s = do
    x ← get_elem? s (position + n)
    t ← set_at (suc (position + n)) x s
    shift_up position n t

  -- `for i in i..i + n { slots[i - 1] = slots[i] }`.
  unfoldable pub shift_down : ℕ → ℕ → List A → Option (List A)
  shift_down i zero s = some s
  shift_down i (suc n) s = do x ← get_elem? s i; t ← set_at (i - 1) x s; shift_down (suc i) n t

  unfoldable pub page_insert : PageEntries A → ℕ → A → Option (PageEntries A)
  unfolding shift_up
  page_insert e position x =
      if ltb (e.len) page_capacity && leb position (e.len)
      then (do
        s ← shift_up position (e.len - position) (e.slots)
        t ← set_at position x s
        some record { slots = t; len = suc (e.len) })
      else none

  unfoldable pub page_remove : PageEntries A → ℕ → Option (PageEntries A)
  unfolding shift_down
  page_remove e position =
      if ltb position (e.len)
      then (do
        s ← shift_down (suc position) (e.len - suc position) (e.slots)
        some record { slots = s; len = e.len - 1 })
      else none

  -- An entry of `as_slice`.
  abbrev pub entry_at : PageEntries A → ℕ → Option A
  entry_at e j = if ltb j (e.len) then get_elem? (e.slots) j else none
