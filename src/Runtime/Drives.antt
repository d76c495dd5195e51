-- ===== src/Runtime/Drives.antt =====
-- src/runtime.rs: what a drive of an engine does, beside what the engine does by itself.
use chrimp.Prelude.{
  Bool, Bool-cases, List, Option, Option-cases, [], ap, arith, false, inl, inr, none, refl, some,
  some-injective, subst, suc, sym, true, zero, ℕ, ◌<◌, ◌||◌, ◌∙◌, ◌∷◌, ◌≡◌, ◌≤◌, ◌⊎◌,
}
use chrimp.Runtime.{Engine, deliver, drive, turn, unless_failed}

module _ {E O S F : Type 0} (engine : Engine E O) (output : O → S → Option F × S) where
  -- A turn of the engine alone: one step of work, and its output taken.
  abbrev pub stepped : E → Option O × E
  stepped e = engine.take_output (engine.advance 1 e)

  abbrev pub after_turns : ℕ → E → E
  after_turns zero e = e
  after_turns (suc n) e = after_turns n (stepped e).1

  abbrev pub with_event : Option O → List O → List O
  with_event none xs = xs
  with_event (some x) xs = x ∷ xs

  -- The events of some turns, in order.
  abbrev pub events : ℕ → E → List O
  events zero e = []
  events (suc n) e = with_event (stepped e).0 (events n (stepped e).1)

  abbrev pub is_ended : E → Bool
  is_ended e = engine.delivery_done e || engine.canceled e

  -- No turn of some begins at an engine that has ended.
  abbrev pub IsRunning : ℕ → E → Type 0
  IsRunning zero e = Unit {0}
  IsRunning (suc n) e = (is_ended e ≡ false) × IsRunning n (stepped e).1

  -- The sink takes all events, in order, without a failure.
  pub data Accepts : List O → S → S → Type 0 where
    taken_all : (s : S) → Accepts [] s s
    takes :
        (x : O) (xs : List O) (s t u : S)
        → output x s ≡ (none, t)
        → Accepts xs t u
        → Accepts (x ∷ xs) s u

  -- A drive of a budget ends after some turns: all of the budget, or up to the end of the engine,
  -- with the events of these turns taken by the sink and no others; or at the turn whose event the
  -- sink fails to take, with the engine cancelled after that turn and the sink's error.
  pub data Drives (b : ℕ) (e : E) (s : S) : E × S × Option F → Type 0 where
    stopped :
        (n : ℕ) (t : S)
        → n ≤ b
        → IsRunning n e
        → Accepts (events n e) s t
        → (n ≡ b) ⊎ (is_ended (after_turns n e) ≡ true)
        → Drives b e s (after_turns n e, t, none)
    failed :
        (n : ℕ) (x : O) (t u : S) (error : F)
        → n < b
        → IsRunning (suc n) e
        → Accepts (events n e) s t
        → (stepped (after_turns n e)).0 ≡ some x
        → output x t ≡ (some error, u)
        → Drives b e s (engine.cancel (stepped (after_turns n e)).1, u, some error)

  deliver-none :
      (r : Option O × E) (s : S) → r.0 ≡ none → deliver engine output r s ≡ (r.1, s, none)
  unfolding deliver
  deliver-none (none, e) s h = refl
  deliver-none (some x, e) s h = cc

  deliver-taken :
      (r : Option O × E) (x : O) (s t : S)
      → r.0 ≡ some x
      → output x s ≡ (none, t)
      → deliver engine output r s ≡ (r.1, t, none)
  unfolding deliver
  deliver-taken (none, e) x s t h k = cc
  deliver-taken (some y, e) x s t h k =
      let q : output y s ≡ (none, t) = ap (λ z. output z s) (some-injective _ _ h) ∙ k in
      rw (ap (λ z. z.0) q, ap (λ z. z.1) q, deliver) refl

  deliver-failed :
      (r : Option O × E) (x : O) (s t : S) (error : F)
      → r.0 ≡ some x
      → output x s ≡ (some error, t)
      → deliver engine output r s ≡ (engine.cancel r.1, t, some error)
  unfolding deliver
  deliver-failed (none, e) x s t error h k = cc
  deliver-failed (some y, e) x s t error h k =
      let q : output y s ≡ (some error, t) = ap (λ z. output z s) (some-injective _ _ h) ∙ k in
      rw (ap (λ z. z.0) q, ap (λ z. z.1) q, deliver) refl

  -- One more turn before a drive, which the sink takes to `t`.
  one_more :
      (b : ℕ) (e : E) (s t : S) (r : E × S × Option F)
      → is_ended e ≡ false
      → ((xs : List O) (u : S) → Accepts xs t u → Accepts (with_event (stepped e).0 xs) s u)
      → Drives b (stepped e).1 t r
      → Drives (suc b) e s r
  one_more b e s t r h k (stopped n u l c a m) =
      stopped (suc n) u (omega arith) (h, c) (k (events n (stepped e).1) u a)
        (elim m [ inl x ↦ inl (ap suc x) | inr x ↦ inr x ])
  one_more b e s t r h k (failed n x u v error l c a y z) =
      failed (suc n) x u v error (omega arith) (h, c) (k (events n (stepped e).1) u a) y z

  -- A `drive` of a budget takes turns of one step of work each while the engine has not ended, at
  -- most as many as the budget and no fewer than it allows; the sink takes every event of these
  -- turns, in order. Where the sink fails to take one, the engine is cancelled after the turn of that
  -- event, no turn follows, and the sink's error is returned.
  pub drive-Drives : (b : ℕ) (e : E) (s : S) → Drives b e s (drive engine output b e s)
  unfolding drive turn
  drive-Drives zero e s = stopped zero s (omega arith) tt (taken_all s) (inl refl)
  drive-Drives (suc b) e s = elim (Bool-cases (is_ended e)) [
    | inl h ↦ rw (h, drive) (stopped zero s (omega arith) tt (taken_all s) (inr h))
    | inr h ↦ elim (Option-cases (stepped e).0) [
      | inl k ↦
          rw (h, drive)
            (subst
              (λ r.
                Drives (suc b) e s
                  (unless_failed engine output r (λ d t. drive engine output b d t)))
              (sym (deliver-none (stepped e) s k))
              (one_more b e s s (drive engine output b (stepped e).1 s) h
                (λ xs u a. subst (λ o. Accepts (with_event o xs) s u) (sym k) a)
                (drive-Drives b (stepped e).1 s)))
      | inr (x, k) ↦ elim (Option-cases (output x s).0) [
        | inl f ↦
            let q : output x s ≡ (none, (output x s).1) = ap (λ o. (o, (output x s).1)) f in
            rw (h, drive)
              (subst
                (λ r.
                  Drives (suc b) e s
                    (unless_failed engine output r (λ d t. drive engine output b d t)))
                (sym (deliver-taken (stepped e) x s (output x s).1 k q))
                (one_more b e s (output x s).1 (drive engine output b (stepped e).1 (output x s).1)
                  h
                  (λ xs u a.
                    subst (λ o. Accepts (with_event o xs) s u) (sym k)
                      (takes x xs s (output x s).1 u q a))
                  (drive-Drives b (stepped e).1 (output x s).1)))
        | inr (error, f) ↦
            let q : output x s ≡ (some error, (output x s).1) = ap (λ o. (o, (output x s).1)) f in
            rw (h, drive)
              (subst
                (λ r.
                  Drives (suc b) e s
                    (unless_failed engine output r (λ d t. drive engine output b d t)))
                (sym (deliver-failed (stepped e) x s (output x s).1 error k q))
                (failed zero x s (output x s).1 error (omega arith) (h, tt) (taken_all s) k q))
      ]
    ]
  ]
