-- ===== src/Store/Shifts.antt =====
-- src/store.rs: insertion into and removal from the array of a page's entries.
use chrimp.Prelude.{
  ==_iff, Bool-cases, List, Option, [], ap, arith, false, get_elem?, if◌then◌else◌, inl, inr, leb,
  length, ltb, none, refl, some, subst, suc, sym, true, zero, ℕ, ◌&&◌, ◌+◌, ◌-◌, ◌<◌, ◌==◌, ◌∙◌,
  ◌∷◌, ◌≡◌, ◌≤◌,
}
use chrimp.Map.{nat_key}
use chrimp.Store.Trie.{page_capacity}
use chrimp.Store.PageArray.{
  PageEntries, entry_at, page_insert, page_remove, set_at, shift_down, shift_up,
}

module _ {A : Type 0} where
  set_at_lem :
      (i : ℕ) (x : A) (s : List A)
      → i < length s
      → (t : List A) × (set_at i x s ≡ some t)
        × (length t ≡ length s)
        × ((j : ℕ) → get_elem? t j ≡ (if i == j then some x else get_elem? s j))
  set_at_lem i x [] h = absurd (omega arith)
  set_at_lem zero x (y ∷ ys) h = (x ∷ ys, refl, refl, first)
    where
      first : (j : ℕ) → get_elem? (x ∷ ys) j ≡ (if 0 == j then some x else get_elem? (y ∷ ys) j)
      first zero = refl
      first (suc j) = ground arith
  set_at_lem (suc i) x (y ∷ ys) h =
      let (t, e, n, f) = set_at_lem i x ys (omega arith) in
      (y ∷ t, rw e refl, omega arith, later t f)
    where
      later :
          (t : List A)
          → ((j : ℕ) → get_elem? t j ≡ (if i == j then some x else get_elem? ys j))
          → (j : ℕ) → get_elem? (y ∷ t) j ≡ (if suc i == j then some x else get_elem? (y ∷ ys) j)
      later t f zero = ground arith
      later t f (suc j) = f j ∙ ap (λ b. if b then some x else get_elem? ys j) (same_suc i j)
        where
          same_suc : (i j : ℕ) → (i == j) ≡ (suc i == suc j)
          same_suc i j = ground arith

  get_elem_some : (s : List A) (i : ℕ) → i < length s → (x : A) × (get_elem? s i ≡ some x)
  get_elem_some [] i h = absurd (omega arith)
  get_elem_some (x ∷ s) zero h = (x, refl)
  get_elem_some (x ∷ s) (suc i) h = get_elem_some s i (omega arith)

  moved_up :
      (T S : ℕ → Option A) (p n j : ℕ)
      → ((i : ℕ) → T i ≡ (if suc (p + n) == i then S (p + n) else S i))
      → (if ltb p j && leb j (p + n) then T (j - 1) else T j)
        ≡ (if ltb p j && leb j (p + suc n) then S (j - 1) else S j)
  moved_up T S p n j f = elim (Bool-cases (suc (p + n) == j)) [
    | inl x ↦
        let c : suc (p + n) ≡ j = (==_iff (suc (p + n)) j).0 x in
        subst
          (λ i.
            (if ltb p i && leb i (p + n) then T (i - 1) else T i)
            ≡ (if ltb p i && leb i (p + suc n) then S (i - 1) else S i))
          c
          (rw (past, at_end)
            (f (suc (p + n))
              ∙ rw ((==_iff (suc (p + n)) (suc (p + n))).1 refl) (ap S (omega arith))))
    | inr x ↦ elim (Bool-cases (ltb p j && leb j (p + n))) [
      | inl y ↦ rw (y, wider p n j y) (f (j - 1) ∙ rw (before p n j y) refl)
      | inr y ↦ rw (y, outer p n j x y) (f j ∙ rw x refl)
    ]
  ]
    where
      past : (ltb p (suc (p + n)) && leb (suc (p + n)) (p + n)) ≡ false
      past = ground arith

      at_end : (ltb p (suc (p + n)) && leb (suc (p + n)) (p + suc n)) ≡ true
      at_end = ground arith

      wider :
          (p n j : ℕ) → (ltb p j && leb j (p + n)) ≡ true → (ltb p j && leb j (p + suc n)) ≡ true
      wider p n j y = ground arith

      before : (p n j : ℕ) → (ltb p j && leb j (p + n)) ≡ true → (suc (p + n) == (j - 1)) ≡ false
      before p n j y = ground arith

      outer :
          (p n j : ℕ)
          → (suc (p + n) == j) ≡ false
          → (ltb p j && leb j (p + n)) ≡ false
          → (ltb p j && leb j (p + suc n)) ≡ false
      outer p n j x y = ground arith

  shift_up_lem :
      (p n : ℕ) (s : List A)
      → p + n < length s
      → (t : List A) × (shift_up p n s ≡ some t)
        × (length t ≡ length s)
        × ((j : ℕ)
            → get_elem? t j
              ≡ (if ltb p j && leb j (p + n) then get_elem? s (j - 1) else get_elem? s j))
  unfolding shift_up
  shift_up_lem p zero s h = (s, refl, refl, λ j. ground arith)
  shift_up_lem p (suc n) s h =
      let (x, a) = get_elem_some s (p + n) (omega arith) in
      let (t, e, m, f) = set_at_lem (suc (p + n)) x s (omega arith) in
      let (u, g, k, w) = shift_up_lem p n t (omega arith) in
      (
        u,
        rw (a, e, shift_up) g,
        k ∙ m,
        λ j.
            w j
            ∙ moved_up (get_elem? t) (get_elem? s) p n j
                (λ i. f i ∙ ap (λ o. if suc (p + n) == i then o else get_elem? s i) (sym a)),
      )

  moved_down :
      (T S : ℕ → Option A) (i n j : ℕ)
      → 1 ≤ i
      → ((q : ℕ) → T q ≡ (if i - 1 == q then S i else S q))
      → (if leb (suc i) (suc j) && ltb (suc j) (suc i + n) then T (suc j) else T j)
        ≡ (if leb i (suc j) && ltb (suc j) (i + suc n) then S (suc j) else S j)
  moved_down T S i n j l f = elim (Bool-cases (i - 1 == j)) [
    | inl x ↦
        let c : i ≡ suc j = at_place i j l x in
        rw (past i n j c, at_end i n j c) (f j ∙ rw x (ap S c))
    | inr x ↦ elim (Bool-cases (leb (suc i) (suc j) && ltb (suc j) (suc i + n))) [
      | inl y ↦ rw (y, wider i n j y) (f (suc j) ∙ rw (before i n j y) refl)
      | inr y ↦ rw (y, outer i n j l x y) (f j ∙ rw x refl)
    ]
  ]
    where
      at_place : (i j : ℕ) → 1 ≤ i → (i - 1 == j) ≡ true → i ≡ suc j
      at_place i j l x = ground arith

      past : (i n j : ℕ) → i ≡ suc j → (leb (suc i) (suc j) && ltb (suc j) (suc i + n)) ≡ false
      past i n j c = ground arith

      at_end : (i n j : ℕ) → i ≡ suc j → (leb i (suc j) && ltb (suc j) (i + suc n)) ≡ true
      at_end i n j c = ground arith

      wider :
          (i n j : ℕ)
          → (leb (suc i) (suc j) && ltb (suc j) (suc i + n)) ≡ true
          → (leb i (suc j) && ltb (suc j) (i + suc n)) ≡ true
      wider i n j y = ground arith

      before :
          (i n j : ℕ)
          → (leb (suc i) (suc j) && ltb (suc j) (suc i + n)) ≡ true
          → (i - 1 == suc j) ≡ false
      before i n j y = ground arith

      outer :
          (i n j : ℕ)
          → 1 ≤ i
          → (i - 1 == j) ≡ false
          → (leb (suc i) (suc j) && ltb (suc j) (suc i + n)) ≡ false
          → (leb i (suc j) && ltb (suc j) (i + suc n)) ≡ false
      outer i n j l x y = ground arith

  shift_down_lem :
      (i n : ℕ) (s : List A)
      → 1 ≤ i
      → i + n ≤ length s
      → (t : List A) × (shift_down i n s ≡ some t)
        × (length t ≡ length s)
        × ((j : ℕ)
            → get_elem? t j ≡ (
                if leb i (suc j) && ltb (suc j) (i + n)
                then get_elem? s (suc j)
                else get_elem? s j))
  unfolding shift_down
  shift_down_lem i zero s l h = (s, refl, refl, λ j. ground arith)
  shift_down_lem i (suc n) s l h =
      let (x, a) = get_elem_some s i (omega arith) in
      let (t, e, m, f) = set_at_lem (i - 1) x s (omega arith) in
      let (u, g, k, w) = shift_down_lem (suc i) n t (omega arith) (omega arith) in
      (
        u,
        rw (a, e, shift_down) g,
        k ∙ m,
        λ j.
            w j
            ∙ moved_down (get_elem? t) (get_elem? s) i n j l
                (λ q. f q ∙ ap (λ o. if i - 1 == q then o else get_elem? s q) (sym a)),
      )

  -- An insertion into a page's array that is not full, at a place not past its end, never fails: the
  -- entries before the place stay, the new one stands at it, and those after it move up by one.
  pub page_insert_lem :
      (e : PageEntries A) (p : ℕ) (x : A)
      → length (e.slots) ≡ page_capacity
      → e.len < page_capacity
      → p ≤ e.len
      → (d : PageEntries A) × (page_insert e p x ≡ some d)
        × (length (d.slots) ≡ page_capacity)
        × (d.len ≡ suc (e.len))
        × ((j : ℕ)
            → entry_at d j
              ≡ (if ltb j p then entry_at e j else if p == j then some x else entry_at e (j - 1)))
  unfolding page_insert
  page_insert_lem e p x full room place =
      let (s, a, m, f) = shift_up_lem p (e.len - p) (e.slots) (omega arith) in
      let (t, b, k, g) = set_at_lem p x s (omega arith) in
      let fits : (ltb (e.len) page_capacity && leb p (e.len)) ≡ true = ground arith in
      (
        record { slots = t; len = suc (e.len) },
        rw (fits, a, b, page_insert) refl,
        k ∙ m ∙ full,
        refl,
        λ j.
            ap (λ o. if ltb j (suc (e.len)) then o else none)
              (g j ∙ ap (λ o. if p == j then some x else o) (f j))
            ∙ cases (e.len) j place,
      )
    where
      cases :
          (n j : ℕ)
          → p ≤ n
          → (if ltb j (suc n)
              then (if p == j
                  then some x
                  else if ltb p j && leb j (p + (n - p))
                  then get_elem? (e.slots) (j - 1)
                  else get_elem? (e.slots) j)
              else none)
            ≡ (if ltb j p
                then (if ltb j n then get_elem? (e.slots) j else none)
                else if p == j
                then some x
                else (if ltb (j - 1) n then get_elem? (e.slots) (j - 1) else none))
      cases n j l = ground arith

  -- A removal from a page's array, at a place before its end, never fails: the entries before the
  -- place stay, and those after it move down by one.
  pub page_remove_lem :
      (e : PageEntries A) (p : ℕ)
      → length (e.slots) ≡ page_capacity
      → e.len ≤ page_capacity
      → p < e.len
      → (d : PageEntries A) × (page_remove e p ≡ some d)
        × (length (d.slots) ≡ page_capacity)
        × (suc (d.len) ≡ e.len)
        × ((j : ℕ) → entry_at d j ≡ (if ltb j p then entry_at e j else entry_at e (suc j)))
  unfolding page_remove
  page_remove_lem e p full room place =
      let (s, a, m, f) =
        shift_down_lem (suc p) (e.len - suc p) (e.slots) (omega arith) (omega arith) in
      let fits : ltb p (e.len) ≡ true = ground arith in
      (
        record { slots = s; len = e.len - 1 },
        rw (fits, a, page_remove) refl,
        m ∙ full,
        omega arith,
        λ j. ap (λ o. if ltb j (e.len - 1) then o else none) (f j) ∙ cases (e.len) j place,
      )
    where
      cases :
          (n j : ℕ)
          → p < n
          → (if ltb j (n - 1)
              then (if leb (suc p) (suc j) && ltb (suc j) (suc p + (n - suc p))
                  then get_elem? (e.slots) (suc j)
                  else get_elem? (e.slots) j)
              else none)
            ≡ (if ltb j p
                then (if ltb j n then get_elem? (e.slots) j else none)
                else (if ltb (suc j) n then get_elem? (e.slots) (suc j) else none))
      cases n j l = ground arith
