-- ===== src/Runtime.antt =====
-- src/runtime.rs: drive, over what it uses of the engine; src/gc.rs: discard_slot.
pub mod Drives
mod Tests
-- The calls that drive makes of an engine `E` with events `O`.
use chrimp.Prelude.{Bool, Option, false, if◌then◌else◌, none, some, suc, true, zero, ℕ, ◌||◌}

pub record Engine (E O : Type 0) : Type 0 where
  pub delivery_done : E → Bool
  pub canceled : E → Bool
  pub advance : ℕ → E → E
  pub take_output : E → Option O × E
  pub cancel : E → E

module _ {E O S F : Type 0} (engine : Engine E O) (output : O → S → Option F × S) where
  -- An event goes to the sink; a failure of the sink cancels the engine.
  unfoldable pub deliver : Option O × E → S → E × S × Option F
  deliver (none, e) s = (e, s, none)
  deliver (some event, e) s =
      let (failure, t) = output event s in
      elim failure [ some error ↦ (engine.cancel e, t, some error) | none ↦ (e, t, none) ]

  unfoldable pub turn : E → S → E × S × Option F
  unfolding deliver
  turn e s = deliver (engine.take_output (engine.advance 1 e)) s

  abbrev pub unless_failed : E × S × Option F → (E → S → E × S × Option F) → E × S × Option F
  unless_failed (e, s, none) next = next e s
  unless_failed (e, s, some error) next = (e, s, some error)

  unfoldable pub drive : ℕ → E → S → E × S × Option F
  unfolding turn
  drive zero e s = (e, s, none)
  drive (suc budget) e s =
      if engine.delivery_done e || engine.canceled e
      then (e, s, none)
      else unless_failed (turn e s) (λ d t. drive budget d t)

-- `discard_slot`: the slot and whether the tick is spent.
unfoldable pub discard_slot : {T : Type 0} → (T → T × Bool) → Option T → Option T × Bool
discard_slot discard none = (none, false)
discard_slot discard (some child) =
    let (rest, ended) = discard child in if ended then (none, true) else (some rest, true)
