-- ===== src/Renderer/Shm/Compaction.antt =====
-- The loop that drops the released slots at the end of the pool: crates/renderer/src/shm.rs.
use veila.Prelude.{
  ℕ, zero, suc, ◌+◌, ◌-◌, ◌≤◌, ◌≡◌, refl, sym, ap, ◌∙◌, Bool, true, false, ◌&&◌, List, [], ◌∷◌,
  ◌++◌, arith, ltb, if◌then◌else◌, branches, if_false, length, nat_eq,
}
use mathlib.Core.List.{append_assoc, append-nil}
use veila.Renderer.Shm.{BufferSlot, last_released, pop, compacted}

shorter-pop : (slots : List BufferSlot) → length (pop slots) ≡ length slots - 1
unfolding pop
shorter-pop [] = refl
shorter-pop (s ∷ []) = refl
shorter-pop (s ∷ t ∷ rest) = omega (arith, shorter-pop (t ∷ rest))

-- The condition of the loop.
abbrev pub goes_on : List BufferSlot → Bool
goes_on slots = ltb 1 (length slots) && last_released slots

compacted_agree :
    (f g : ℕ) (slots : List BufferSlot)
    → length slots ≤ f
    → length slots ≤ g
    → compacted f slots ≡ compacted g slots
unfolding compacted
compacted_agree zero zero slots h k = refl
compacted_agree zero (suc g) slots h k = sym (if_false (goes_on slots) _ slots (ground arith))
compacted_agree (suc f) zero slots h k = if_false (goes_on slots) _ slots (ground arith)
compacted_agree (suc f) (suc g) slots h k =
    ap (λ r. if goes_on slots then r else slots)
      (compacted_agree f g (pop slots) (omega (arith, shorter-pop slots))
        (omega (arith, shorter-pop slots)))

compacted_ends :
    (fuel : ℕ) (slots : List BufferSlot)
    → length slots ≤ fuel
    → goes_on (compacted fuel slots) ≡ false
unfolding compacted
compacted_ends zero slots h = ground arith
compacted_ends (suc fuel) slots h =
    branches (λ r. goes_on r ≡ false) (goes_on slots) (compacted fuel (pop slots)) slots
      (λ e. compacted_ends fuel (pop slots) (ground (arith, shorter-pop slots))) (λ e. e)

abbrev pub all_released : List BufferSlot → Bool
all_released [] = true
all_released (s ∷ rest) = s.released && all_released rest

all_released-append :
    (xs ys : List BufferSlot) → all_released (xs ++ ys) ≡ all_released xs && all_released ys
all_released-append [] ys = refl
all_released-append (s ∷ rest) ys = ground (arith, all_released-append rest ys)

popped :
    (slots : List BufferSlot)
    → last_released slots ≡ true
    → (s : BufferSlot) × (pop slots ++ (s ∷ []) ≡ slots) × (s.released ≡ true)
unfolding last_released pop
popped [] h = absurd (ground (arith, h))
popped (s ∷ []) h = (s, refl, h)
popped (s ∷ t ∷ rest) h = let (u, e, r) = popped (t ∷ rest) h in (u, ap (λ xs. s ∷ xs) e, r)

abbrev Dropped : List BufferSlot → List BufferSlot → Type 0
Dropped slots kept = (gone : List BufferSlot) × (kept ++ gone ≡ slots) × (all_released gone ≡ true)

compacted-Dropped : (fuel : ℕ) (slots : List BufferSlot) → Dropped slots (compacted fuel slots)
unfolding compacted
compacted-Dropped zero slots = ([], append-nil slots, refl)
compacted-Dropped (suc fuel) slots =
    branches (Dropped slots) (goes_on slots) (compacted fuel (pop slots)) slots
      (λ e.
        let (s, p, r) = popped slots (ground (arith, e)) in
        let (gone, q, a) = compacted-Dropped fuel (pop slots) in
        (
          gone ++ (s ∷ []),
          sym (append_assoc (compacted fuel (pop slots)) gone (s ∷ []))
              ∙ ap (λ xs. xs ++ (s ∷ [])) q
              ∙ p,
          all_released-append gone (s ∷ []) ∙ ground arith,
        ))
      (λ _. ([], append-nil slots, refl))

-- As many rounds as there are slots are enough for the loop: its condition is false then, more
-- rounds change nothing, and what it has dropped are slots at the end that are all released.
pub compacted-ends :
    (slots : List BufferSlot) (more : ℕ)
    → (goes_on (compacted (length slots) slots) ≡ false)
      × (compacted (length slots + more) slots ≡ compacted (length slots) slots)
      × ((gone : List BufferSlot) × (compacted (length slots) slots ++ gone ≡ slots)
          × (all_released gone ≡ true))
compacted-ends slots more = (
  compacted_ends (length slots) slots (omega arith),
  compacted_agree (length slots + more) (length slots) slots (omega arith) (omega arith),
  compacted-Dropped (length slots) slots,
)
