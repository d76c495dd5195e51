-- ===== src/Condition/Cache.antt =====
-- src/condition.rs: `remember`, the bounded cache of conjunctions with the queue of its keys.
use chrimp.Prelude.{
  ==_iff, Bool-cases, List, Option-cases, [], ap, arith, false, inl, inr, length, length-append,
  none, refl, some, sym, ◌++◌, ◌<◌, ◌==◌, ◌∷◌, ◌≡◌, ◌≢◌, ◌≤◌, ◌⊎◌,
}
use chrimp.Map.{
  Map, insert, length-insert, length-remove, lookup, lookup-insert, lookup-remove, nat_key, remove,
}
use chrimp.Condition.Handle.{Condition, Pair, condition_key, pair_key, same_pair, same_pair_iff}
use chrimp.Condition.Arena.{Arena, cache_limit, pop_front, remember}

-- The pair is none of the list.
abbrev Fresh : Pair → List Pair → Type 0
Fresh p [] = Unit
Fresh p (q ∷ qs) = (p ≢ q) × Fresh p qs

-- The queued pairs differ from one another, and each has its entry.
abbrev Listed : Map Pair Condition → List Pair → Type 0
Listed cache [] = Unit
Listed cache (p ∷ ps) = Fresh p ps × ((c : Condition) × (lookup p cache ≡ some c)) × Listed cache ps

-- The queue holds the keys of the cache, which is within its limit.
pub record IsQueue (cache : Map Pair Condition) (queue : List Pair) : Type 0 where
  pub listed : Listed cache queue
  pub queued : length cache ≤ length queue
  pub limit : length cache ≤ cache_limit

Listed-insert :
    (cache : Map Pair Condition) (p : Pair) (c : Condition) (queue : List Pair)
    → Listed cache queue
    → Listed (insert p c cache) queue
Listed-insert cache p c [] h = tt
Listed-insert cache p c (q ∷ qs) (fresh, (d, e), rest) = (
  fresh,
  elim (Bool-cases (same_pair p q)) [
    | inl eq ↦ (c, rw (lookup-insert, eq))
    | inr ne ↦ (d, rw (lookup-insert, ne) e)
  ],
  Listed-insert cache p c qs rest,
)

Listed-remove :
    (cache : Map Pair Condition) (p : Pair) (queue : List Pair)
    → Fresh p queue
    → Listed cache queue
    → Listed (remove p cache) queue
Listed-remove cache p [] f h = tt
Listed-remove cache p (q ∷ qs) (ne, f) (fresh, (d, e), rest) =
    let differ : same_pair p q ≡ false = ground (arith, same_pair_iff p q) in
    (fresh, (d, rw (lookup-remove, differ) e), Listed-remove cache p qs f rest)

-- A pair without an entry is not in the queue.
Fresh-none :
    (cache : Map Pair Condition) (p : Pair) (queue : List Pair)
    → lookup p cache ≡ none
    → Listed cache queue
    → Fresh p queue
Fresh-none cache p [] h l = tt
Fresh-none cache p (q ∷ qs) h (fresh, (d, e), rest) =
    ((λ p≡q. cc (ap (λ (x : Pair). lookup x cache) p≡q)), Fresh-none cache p qs h rest)

Fresh-snoc : (p q : Pair) (qs : List Pair) → p ≢ q → Fresh p qs → Fresh p (qs ++ q ∷ [])
Fresh-snoc p q [] ne f = (ne, tt)
Fresh-snoc p q (x ∷ xs) ne (f, fs) = (f, Fresh-snoc p q xs ne fs)

Listed-snoc :
    (cache : Map Pair Condition) (p : Pair) (c : Condition) (queue : List Pair)
    → lookup p cache ≡ some c
    → Fresh p queue
    → Listed cache queue
    → Listed cache (queue ++ p ∷ [])
Listed-snoc cache p c [] h f l = (tt, (c, h), tt)
Listed-snoc cache p c (q ∷ qs) h (ne, f) (fresh, e, rest) =
    (Fresh-snoc q p qs (λ z. ne (sym z)) fresh, e, Listed-snoc cache p c qs h f rest)

-- What `remember` leaves: the other fields as they were, an entry of the pair, the one it had or else
-- the new one, and each other entry an old one.
pub record Remembers (a b : Arena) (p : Pair) (c : Condition) : Type 0 where
  pub rest : b ≡ record a { cache = b.cache; cache_order = b.cache_order }
  pub queue : IsQueue b.cache b.cache_order
  pub entries :
      (q : Pair) (d : Condition)
      → lookup q b.cache ≡ some d
      → (lookup q a.cache ≡ some d) ⊎ ((p ≡ q) × (c ≡ d))
  pub stored :
      (d : Condition) × (lookup p b.cache ≡ some d)
      × ((lookup p a.cache ≡ some d) ⊎ ((lookup p a.cache ≡ none) × (c ≡ d)))

-- A cache with room, each of whose entries the arena had, takes the new entry.
remember_room :
    (a : Arena) (p : Pair) (c : Condition) (cache : Map Pair Condition) (queue : List Pair)
    → IsQueue cache queue
    → length cache < cache_limit
    → lookup p cache ≡ none
    → lookup p a.cache ≡ none
    → ((q : Pair) (d : Condition) → lookup q cache ≡ some d → lookup q a.cache ≡ some d)
    → Remembers a (record a { cache = insert p c cache; cache_order = queue ++ p ∷ [] }) p c
remember_room a p c cache queue h room absent unknown old = record {
  rest = refl;
  queue = record {
    listed =
        Listed-snoc (insert p c cache) p c queue (rw (lookup-insert, (same_pair_iff p p).1 refl))
          (Fresh-none cache p queue absent h.listed) (Listed-insert cache p c queue h.listed);
    queued = omega (arith, length-insert p c cache, length-append queue (p ∷ []), h.queued);
    limit = omega (arith, length-insert p c cache);
  };
  entries = λ q d e. elim (Bool-cases (same_pair p q)) [
    | inl eq ↦ inr ((same_pair_iff p q).0 eq, ground (arith, lookup-insert q p c cache))
    | inr ne ↦ inl (old q d (ground (arith, lookup-insert q p c cache)))
  ];
  stored = (c, rw (lookup-insert, (same_pair_iff p p).1 refl) refl, inr (unknown, refl));
}

lookup-remove-none :
    (cache : Map Pair Condition) (p q : Pair)
    → lookup p cache ≡ none
    → lookup p (remove q cache) ≡ none
lookup-remove-none cache p q h = rw lookup-remove (ground arith)

remember_full :
    (a : Arena) (p : Pair) (c : Condition) (queue : List Pair)
    → IsQueue a.cache queue
    → length a.cache ≡ cache_limit
    → a.cache_order ≡ queue
    → lookup p a.cache ≡ none
    → (b : Arena) × (remember a p c ≡ some b) × Remembers a b p c
unfolding remember
remember_full a p c [] h full e absent = absurd (omega (arith, h.queued))
remember_full a p c (oldest ∷ queue) h full e absent =
    let (fresh, (d, found), listed) = h.listed in
    let shorter = length-remove oldest d a.cache found in
    (
      record a { cache = insert p c (remove oldest a.cache); cache_order = queue ++ p ∷ [] },
      rw (absent, remember, (==_iff (length a.cache) cache_limit).1 full, e, pop_front),
      remember_room a p c (remove oldest a.cache) queue
          (record {
            listed = Listed-remove a.cache oldest queue fresh listed;
            queued = omega (arith, h.queued);
            limit = omega (arith, h.limit);
          })
          (omega arith) (lookup-remove-none a.cache p oldest absent) absent
          (λ q d g. ground (arith, lookup-remove q oldest a.cache)),
    )

-- `remember` never panics on an arena whose queue lists its cache: the cache stays within its
-- limit, the queue lists it still, the pair has an entry, the one it had or else the one asked for,
-- and every other entry is an old one.
pub remember_lem :
    (a : Arena) (p : Pair) (c : Condition)
    → IsQueue a.cache a.cache_order
    → (b : Arena) × (remember a p c ≡ some b) × Remembers a b p c
unfolding remember
remember_lem a p c h = elim (Option-cases (lookup p a.cache)) [
  | inr (known, e) ↦ (
    a,
    remember_known e,
    record { rest = refl; queue = h; entries = λ q d g. inl g; stored = (known, e, inl e) },
  )
  | inl absent ↦ elim (Bool-cases (length a.cache == cache_limit)) [
    | inl full ↦
        remember_full a p c a.cache_order h ((==_iff (length a.cache) cache_limit).0 full) refl
          absent
    | inr room ↦ (
      record a { cache = insert p c a.cache; cache_order = a.cache_order ++ p ∷ [] },
      remember_fits absent room,
      remember_room a p c a.cache a.cache_order h (ground (arith, h.limit)) absent absent
          (λ q d g. g),
    )
  ]
]
  where
    remember_known : {known : Condition} → lookup p a.cache ≡ some known → remember a p c ≡ some a
    remember_known e = rw (e, remember)

    remember_fits :
        lookup p a.cache ≡ none
        → (length a.cache == cache_limit) ≡ false
        → remember a p c
          ≡ some (record a { cache = insert p c a.cache; cache_order = a.cache_order ++ p ∷ [] })
    remember_fits absent room = rw (absent, room, remember)
