-- ===== src/Program/Variables.antt =====
-- src/program.rs: Variables, the slots of a rule's variables.
use chrimp.Prelude.{
  Bool-cases, List, Option-cases, [], ap, arith, false, get_elem?, if◌then◌else◌, inl, inr, length,
  none, none≢some, refl, some, some-injective, subst, suc, sym, true, true≢false, zero, ℕ, ◌++◌,
  ◌↔◌, ◌∙◌, ◌∷◌, ◌≡◌, ◌⊎◌,
}
use chrimp.Map.{Key, Map, insert, lookup, lookup-insert, nat_key}
use chrimp.Syntax.Text.{Text, same_text}

pub same_text_iff : (s t : Text) → (same_text s t ≡ true) ↔ (s ≡ t)
same_text_iff [] [] = (λ h. refl, λ h. refl)
same_text_iff [] (d ∷ t) = (λ h. absurd (true≢false (sym h)), λ h. cc)
same_text_iff (c ∷ s) [] = (λ h. absurd (true≢false (sym h)), λ h. cc)
same_text_iff (c ∷ s) (d ∷ t) =
    (λ h. ground (arith, same_text_iff s t), λ h. ground (arith, same_text_iff s t))

-- A HashMap's key: its order is never read.
instance abbrev pub text_key : Key Text
text_key = record { same = same_text; less = λ s t. false; same_iff = same_text_iff }

pub record Variables : Type 0 where
  pub names : List Text
  pub slots : Map Text ℕ

abbrev pub no_variables : Variables
no_variables = record { names = []; slots = [] }

unfoldable pub slot : Variables → Text → Variables × ℕ
slot v word = elim (lookup word v.slots) [
  | some k ↦ (v, k)
  | none ↦ (
    record { names = v.names ++ word ∷ []; slots = insert word (length v.names) v.slots },
    length v.names,
  )
]

-- Each slot is the position of its name, and each name has its position as its slot.
unfoldable pub IsInterned : Variables → Type 0
IsInterned v =
    ((word : Text) (k : ℕ) → lookup word v.slots ≡ some k → get_elem? v.names k ≡ some word)
    × ((word : Text) (k : ℕ) → get_elem? v.names k ≡ some word → lookup word v.slots ≡ some k)

-- What a call gives: for a known name, its slot and the same variables; for a new one, the next slot
-- and the variables with the name at the end, in which all other names have their slots.
pub data Interns (v : Variables) (word : Text) : Variables × ℕ → Type 0 where
  known :
      (k : ℕ)
      → lookup word v.slots ≡ some k
      → get_elem? v.names k ≡ some word
      → Interns v word (v, k)
  added :
      (w : Variables)
      → lookup word v.slots ≡ none
      → IsInterned w
      → w.names ≡ v.names ++ word ∷ []
      → ((n : Text)
          → lookup n w.slots
            ≡ (if same_text word n then some (length v.names) else lookup n v.slots))
      → Interns v word (w, length v.names)

get_elem?-append :
    (xs ys : List Text) (j : ℕ) (n : Text)
    → get_elem? xs j ≡ some n
    → get_elem? (xs ++ ys) j ≡ some n
get_elem?-append [] ys j n h = cc
get_elem?-append (x ∷ xs) ys zero n h = h
get_elem?-append (x ∷ xs) ys (suc j) n h = get_elem?-append xs ys j n h

get_elem?-last : (xs : List Text) (n : Text) → get_elem? (xs ++ n ∷ []) (length xs) ≡ some n
get_elem?-last [] n = refl
get_elem?-last (x ∷ xs) n = get_elem?-last xs n

append_cases :
    (xs : List Text) (m : Text) (k : ℕ) (n : Text)
    → get_elem? (xs ++ m ∷ []) k ≡ some n
    → (get_elem? xs k ≡ some n) ⊎ ((k ≡ length xs) × (m ≡ n))
append_cases [] m zero n h = inr (refl, some-injective _ _ h)
append_cases [] m (suc k) n h = cc
append_cases (x ∷ xs) m zero n h = inl h
append_cases (x ∷ xs) m (suc k) n h = elim (append_cases xs m k n h) [
  | inl e ↦ inl e
  | inr (e, f) ↦ inr (ap suc e, f)
]

-- `slot` gives a known name its slot and changes nothing, and gives a new name the next slot, with
-- its name at the end and every other name at its slot, for variables whose slots are the positions
-- of their names, which they stay.
pub slot-Interns : (v : Variables) (word : Text) → IsInterned v → Interns v word (slot v word)
unfolding slot IsInterned
slot-Interns v word (h, g) = elim (Option-cases (lookup word v.slots)) [
  | inr (k, e) ↦ rw (e, slot) (known k e (h word k e))
  | inl e ↦
      rw (e, slot)
        (added record { names = v.names ++ word ∷ []; slots = insert word (length v.names) v.slots }
          e (named, placed e) refl look)
]
  where
    look :
        (n : Text)
        → lookup n (insert word (length v.names) v.slots)
          ≡ (if same_text word n then some (length v.names) else lookup n v.slots)
    look n = lookup-insert n word (length v.names) v.slots

    named :
        (n : Text) (k : ℕ)
        → lookup n (insert word (length v.names) v.slots) ≡ some k
        → get_elem? (v.names ++ word ∷ []) k ≡ some n
    named n k e = elim (Bool-cases (same_text word n)) [
      | inl x ↦
          let last : length v.names ≡ k = some-injective _ _ (sym (rw x at (look n)) ∙ e) in
          subst (λ i. get_elem? (v.names ++ word ∷ []) i ≡ some n) last
            (get_elem?-last v.names word ∙ ap some ((same_text_iff word n).0 x))
      | inr x ↦ get_elem?-append v.names (word ∷ []) k n (h n k (sym (rw x at (look n)) ∙ e))
    ]

    placed :
        lookup word v.slots ≡ none
        → (n : Text) (k : ℕ) → get_elem? (v.names ++ word ∷ []) k ≡ some n
        → lookup n (insert word (length v.names) v.slots) ≡ some k
    placed new n k e = elim (append_cases v.names word k n e) [
      | inl x ↦ elim (Bool-cases (same_text word n)) [
        | inl y ↦ absurd (
            none≢some k
              (sym new ∙ ap (λ w. lookup w v.slots) ((same_text_iff word n).0 y) ∙ g n k x))
        | inr y ↦ look n ∙ rw y (g n k x)
      ]
      | inr (x, y) ↦ look n ∙ rw ((same_text_iff word n).1 y) (ap some (sym x))
    ]
