-- ===== src/Track/Assign.antt =====
-- `hungarian` of helpers/track_manager.hpp. A vector is a function of its index, since every index
-- that the loops form is in its range; `none` is a loop that does not end within its fuel.
use droneengage_common.Common.{
  ℕ, zero, suc, ◌+◌, ◌-◌, ◌*◌, Bool, true, false, Option, none, some, ◌==◌, if◌then◌else◌,
}
use droneengage_common.Common.Int.{pos}
use droneengage_common.Common.Float.{FloatOps}

abbrev pub update_at {ℓ} : {A : Type ℓ} → (ℕ → A) → ℕ → A → ℕ → A
update_at f i a k = if k == i then a else f k

-- The variables of the loop over the columns that looks for the next one.
pub record Scan (F : Type 0) : Type 0 where
  pub minv : ℕ → F
  pub way : ℕ → ℕ
  pub delta : F
  pub j1 : ℕ

pub record Duals (F : Type 0) : Type 0 where
  pub u : ℕ → F
  pub v : ℕ → F
  pub minv : ℕ → F

-- The variables of the `do` loop that looks for a free column.
pub record Search (F : Type 0) : Type 0 where
  pub duals : Duals F
  pub used : ℕ → Bool
  pub way : ℕ → ℕ
  pub j0 : ℕ

-- What a row leaves for the next one.
pub record Matching (F : Type 0) : Type 0 where
  pub u : ℕ → F
  pub v : ℕ → F
  pub p : ℕ → ℕ
  pub way : ℕ → ℕ

-- The second `do` loop: the rows on the path move to the next column.
unfoldable pub augment : ℕ → (ℕ → ℕ) → (ℕ → ℕ) → ℕ → Option (ℕ → ℕ)
augment zero way p j0 = none
augment (suc fuel) way p j0 = elim (way j0 == 0) [
  | true ↦ some (update_at p j0 (p (way j0)))
  | false ↦ augment fuel way (update_at p j0 (p (way j0))) (way j0)
]

-- The columns that the matching gives to the rows; `none` is -1.
unfoldable pub read_columns : (rounds j : ℕ) → (ℕ → ℕ) → (ℕ → Option ℕ) → ℕ → Option ℕ
read_columns zero j p row_to_col = row_to_col
read_columns (suc rounds) j p row_to_col =
    read_columns rounds (suc j) p
      (if p j == 0 then row_to_col else update_at row_to_col (p j - 1) (some (j - 1)))

module _ {F : Type 0} ⦃o : FloatOps F⦄ where
  unfoldable pub choose_step : ℕ → Scan F → Scan F
  choose_step j s = if o.lt (s.minv j) s.delta then record s { delta = s.minv j; j1 = j } else s

  -- A column of the loop that moves the potentials by `delta`.
  unfoldable pub adjust_step : (ℕ → ℕ) → (ℕ → Bool) → F → ℕ → Duals F → Duals F
  adjust_step p used delta j d =
      if used j
      then record d {
        u = update_at d.u (p j) (o.add (d.u (p j)) delta);
        v = update_at d.v j (o.sub (d.v j) delta);
      }
      else record d { minv = update_at d.minv j (o.sub (d.minv j) delta) }

  unfoldable pub adjust : (ℕ → ℕ) → (ℕ → Bool) → F → (rounds j : ℕ) → Duals F → Duals F
  unfolding adjust_step
  adjust p used delta zero j d = d
  adjust p used delta (suc rounds) j d =
      adjust p used delta rounds (suc j) (adjust_step p used delta j d)

module _ {F : Type 0} ⦃o : FloatOps F⦄ (cost : ℕ → F) (m : ℕ) where
  -- A column of the scan, for the row `i0` of the column `j0`.
  unfoldable pub relax_step : Duals F → (i0 j0 j : ℕ) → Scan F → Scan F
  relax_step d i0 j0 j s =
      let cur = o.sub (o.sub (cost ((i0 - 1) * m + (j - 1))) (d.u i0)) (d.v j) in
      if o.lt cur (s.minv j)
      then record s { minv = update_at s.minv j cur; way = update_at s.way j j0 }
      else s

  unfoldable pub scan_step : Duals F → (ℕ → Bool) → (i0 j0 j : ℕ) → Scan F → Scan F
  unfolding relax_step choose_step
  scan_step d used i0 j0 j s = if used j then s else choose_step j (relax_step d i0 j0 j s)

  unfoldable pub scan : Duals F → (ℕ → Bool) → (i0 j0 rounds j : ℕ) → Scan F → Scan F
  unfolding scan_step
  scan d used i0 j0 zero j s = s
  scan d used i0 j0 (suc rounds) j s = scan d used i0 j0 rounds (suc j) (scan_step d used i0 j0 j s)

  -- A round of the first `do` loop.
  unfoldable pub search_step : (ℕ → ℕ) → Search F → Search F
  unfolding scan adjust
  search_step p s =
      let used = update_at s.used s.j0 true in
      let found =
        scan s.duals used (p s.j0) s.j0 m 1
          (record { minv = s.duals.minv; way = s.way; delta = o.infinity; j1 = 0 }) in
      record {
        duals = adjust p used found.delta (suc m) 0 (record s.duals { minv = found.minv });
        used = used;
        way = found.way;
        j0 = found.j1;
      }

  unfoldable pub search : ℕ → (ℕ → ℕ) → Search F → Option (Search F)
  unfolding search_step
  search zero p s = none
  search (suc fuel) p s = elim (p (search_step p s).j0 == 0) [
    | true ↦ some (search_step p s)
    | false ↦ search fuel p (search_step p s)
  ]

  -- The row `i` joins the matching.
  unfoldable pub add_row : ℕ → Matching F → Option (Matching F)
  unfolding search augment
  add_row i s =
      let p = update_at s.p 0 i in
      elim (search (suc m) p (record {
        duals = record { u = s.u; v = s.v; minv = λ j. o.infinity };
        used = λ j. false;
        way = s.way;
        j0 = 0;
      })) [
        | none ↦ none
        | some t ↦ elim (augment (suc (suc m)) t.way p t.j0) [
          | none ↦ none
          | some p' ↦ some (record { u = t.duals.u; v = t.duals.v; p = p'; way = t.way })
        ]
      ]

  unfoldable pub add_rows : (rounds i : ℕ) → Matching F → Option (Matching F)
  unfolding add_row
  add_rows zero i s = some s
  add_rows (suc rounds) i s = elim (add_row i s) [
    | none ↦ none
    | some t ↦ add_rows rounds (suc i) t
  ]

  -- `hungarian (cost, n, m)`
  unfoldable pub hungarian : ℕ → Option (ℕ → Option ℕ)
  unfolding add_rows read_columns
  hungarian n =
      elim (add_rows n 1 (record {
        u = λ j. o.of_int (pos 0);
        v = λ j. o.of_int (pos 0);
        p = λ j. 0;
        way = λ j. 0;
      })) [ none ↦ none | some s ↦ some (read_columns m 1 s.p (λ i. none)) ]
