-- ===== src/Resolution/Interactive/Selection.antt =====
-- Where the moves of the selection lead.
use duet.Prelude.{
  ℕ, zero, suc, ◌+◌, ◌-◌, ◌*◌, ◌/◌, ◌≤◌, ◌<◌, ◌≡◌, refl, arith, true, false, List, [], ◌∷◌, length,
  Option, none, some, Bool-cases, inl, inr,
}
use duet.Actions.{Action}
use duet.Resolution.Interactive.{
  Step, forward, backward, wrap_step, page_selection, search_conflict, next_conflict_index,
  conflict_at,
}

pub wrap_step-lt : (step : Step) (i n : ℕ) → 0 < n → wrap_step step i n < n
unfolding wrap_step
wrap_step-lt forward i n h = omega arith
wrap_step-lt backward i n h = omega arith

div_unique : (x c q : ℕ) → 0 < c → q * c ≤ x → x < q * c + c → x / c ≡ q
div_unique x c q h lo hi = grind arith

-- The last page begins inside the list.
page-lt : (q c len : ℕ) → 0 < c → 0 < len → q < (len + c - 1) / c → q * c < len
page-lt q c len hc hl h = grind arith

pages_pos : (c len : ℕ) → 0 < c → 0 < len → 0 < (len + c - 1) / c
pages_pos c len hc hl = grind arith

-- Of a list that is not empty, with a positive number of rows: a page turned stays inside the list
-- and lands on the page aimed at.
pub page_selection_lem :
    (sel capacity len : ℕ) (step : Step)
    → 0 < capacity
    → 0 < len
    → (page_selection sel capacity len step < len)
      × (page_selection sel capacity len step / capacity
          ≡ wrap_step step (sel / capacity) ((len + capacity - 1) / capacity))
unfolding page_selection
page_selection_lem sel capacity len step hc hl =
    let pages = (len + capacity - 1) / capacity in
    let q = wrap_step step (sel / capacity) pages in
    let start =
      page-lt q capacity len hc hl (wrap_step-lt step _ pages (pages_pos capacity len hc hl)) in
    (omega arith, div_unique _ capacity q hc (omega (arith, start)) (omega arith))

-- The index after so many steps from `i`.
abbrev pub steps : Step → ℕ → ℕ → ℕ → ℕ
steps step n zero i = i
steps step n (suc k) i = steps step n k (wrap_step step i n)

-- What the search from `i` found in `n` rounds: the first step that meets a conflict, or none of
-- them.
abbrev pub Found : List Action → Step → ℕ → ℕ → Option ℕ → Type 0
Found actions step n i none =
    (k : ℕ) → k < n → conflict_at actions (steps step (length actions) (suc k) i) ≡ false
Found actions step n i (some j) =
    (k : ℕ) × (k < n)
    × (j ≡ steps step (length actions) (suc k) i)
    × (conflict_at actions j ≡ true)
    × ((m : ℕ) → m < k → conflict_at actions (steps step (length actions) (suc m) i) ≡ false)

-- One more step without a conflict in front.
Clear : List Action → Step → ℕ → ℕ → Type 0
Clear actions step n i =
    (m : ℕ) → m < n → conflict_at actions (steps step (length actions) (suc m) i) ≡ false

module _ (actions : List Action) (step : Step) (i : ℕ) where
  abbrev next : ℕ
  next = wrap_step step i (length actions)

  Clear-suc :
      (n : ℕ)
      → conflict_at actions next ≡ false
      → Clear actions step n next
      → Clear actions step (suc n) i
  unfolding Clear
  Clear-suc n misses f zero h = misses
  Clear-suc n misses f (suc m) h = f m (omega arith)

  Found-suc :
      (n : ℕ) (r : Option ℕ)
      → conflict_at actions next ≡ false
      → Found actions step n next r
      → Found actions step (suc n) i r
  unfolding Clear
  Found-suc n none misses f = Clear-suc n misses f
  Found-suc n (some j) misses (k, lt, e, c, earlier) =
      (suc k, omega arith, e, c, Clear-suc k misses earlier)

search_conflict_lem :
    (actions : List Action) (step : Step) (n i : ℕ)
    → Found actions step n i (search_conflict actions step n i)
unfolding search_conflict
search_conflict_lem actions step zero i = λ k h. absurd (omega arith)
search_conflict_lem actions step (suc n) i =
    elim (Bool-cases (conflict_at actions (wrap_step step i (length actions)))) [
      | inl y ↦ rw (y, search_conflict) (0, omega arith, refl, y, λ m h. absurd (omega arith))
      | inr f ↦
          rw (f, search_conflict)
            (Found-suc actions step i n _ f (search_conflict_lem actions step n _))
    ]

-- Tab and Shift-Tab go to the nearest conflict in their direction, wrapping round, counted in steps
-- from the selection; there is no move only if no step of a whole round meets a conflict.
pub next_conflict_index_lem :
    (actions : List Action) (sel : ℕ) (step : Step)
    → Found actions step (length actions) sel (next_conflict_index actions sel step)
unfolding next_conflict_index
next_conflict_index_lem [] sel step = λ k h. absurd (omega arith)
next_conflict_index_lem (a ∷ as') sel step =
    search_conflict_lem (a ∷ as') step (length (a ∷ as')) sel
