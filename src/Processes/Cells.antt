-- ===== src/Processes/Cells.antt =====
-- services/compositor/app/pipelines.py: the cells of a mosaic are inside its output and apart.
use airgap_videowall.Values.{pos}
use airgap_videowall.Processes.Mosaic.{Rect, place, cell_xy}
use airgap_videowall.Processes.Compositor.{MosaicInput, Mosaic}
use airgap_videowall.Values.Division.{floor_div, modulo, mul_int, at_least_one}
use native.Mathlib.Nat.{
  mod-lt, div-lt_iff_lt-mul, div-mul-le_self, div-add-mod', mul-le-mul_right, suc-mul, mul_comm,
}
use airgap_videowall.Prelude.{
  ℕ, zero, suc, ◌+◌, ◌*◌, ◌/◌, ◌%◌, ◌≤◌, ◌<◌, ◌≡◌, refl, sym, ap, ◌∙◌, ◌≢◌, ◌⊎◌, inl, inr, some,
  arith, leb, Bool-cases,
}

-- An input of one cell, at a position.
pub record IsCell (inp : MosaicInput) (p : ℕ) : Type 0 where
  pub position : inp.position ≡ pos p
  pub width : inp.width ≡ pos 1
  pub height : inp.height ≡ pos 1

-- A rectangle within an output of a size, with its numbers.
pub record IsWithin (out_w out_h : ℕ) (r : Rect) : Type 0 where
  pub x : ℕ
  pub y : ℕ
  pub w : ℕ
  pub h : ℕ
  pub is : r ≡ record { x = pos x; y = pos y; w = pos w; h = pos h }
  pub right : x + w ≤ out_w
  pub below : y + h ≤ out_h

-- One stands left of the other, or above it.
abbrev pub AreApart :
    {out_w out_h : ℕ} {r s : Rect} → IsWithin out_w out_h r → IsWithin out_w out_h s → Type 0
AreApart a b = ((a.x + a.w ≤ b.x) ⊎ (b.x + b.w ≤ a.x)) ⊎ ((a.y + a.h ≤ b.y) ⊎ (b.y + b.h ≤ a.y))

floor_div-pos : (a b : ℕ) → 0 < b → floor_div (pos a) (pos b) ≡ some (pos (a / b))
unfolding floor_div
floor_div-pos a zero h = absurd (omega arith)
floor_div-pos a (suc b) h = refl

modulo-pos : (a b : ℕ) → 0 < b → modulo (pos a) (pos b) ≡ some (pos (a % b))
unfolding modulo
modulo-pos a zero h = absurd (omega arith)
modulo-pos a (suc b) h = refl

next_le : (c d n : ℕ) → c < d → c * n + n * 1 ≤ d * n
next_le c d n h =
    let whole : suc c * n ≤ d * n = mul-le-mul_right n h in omega (arith, whole, suc-mul c n)

abbrev cell : ℕ → ℕ → ℕ → ℕ → ℕ → Rect
cell w h cols rows p = record {
  x = pos (p % cols * (w / cols));
  y = pos (p / cols * (h / rows));
  w = pos (w / cols * 1);
  h = pos (h / rows * 1);
}

compare_cases : (a b : ℕ) → (a < b) ⊎ ((a ≡ b) ⊎ (b < a))
compare_cases a b = elim (Bool-cases (leb a b)) [
  | inr e ↦ inr (inr (ground arith))
  | inl e ↦ elim (Bool-cases (leb b a)) [
    | inl f ↦ inr (inl (ground arith))
    | inr f ↦ inl (ground arith)
  ]
]

module _ (w h cols rows : ℕ) (m : Mosaic) (is_cols : m.grid_cols ≡ pos cols)
    (is_rows : m.grid_rows ≡ pos rows) (some_cols : 0 < cols) (some_rows : 0 < rows) where
  place-cell :
      (inp : MosaicInput) (p : ℕ)
      → IsCell inp p
      → place (pos w, pos h) m inp ≡ some (cell w h cols rows p)
  unfolding place cell_xy mul_int at_least_one
  place-cell inp p c =
      rw
        (
          c.position,
          c.width,
          c.height,
          is_cols,
          is_rows,
          floor_div-pos w cols some_cols,
          floor_div-pos h rows some_rows,
          floor_div-pos p cols some_cols,
          modulo-pos p cols some_cols,
        )
        refl

  unfoldable within : (p : ℕ) → p < cols * rows → IsWithin w h (cell w h cols rows p)
  within p inside =
      let col : p % cols < cols = mod-lt p some_cols in
      let row : p / cols < rows =
        (div-lt_iff_lt-mul some_cols).1 (omega (arith, mul_comm cols rows, inside)) in
      record {
        x = p % cols * (w / cols);
        y = p / cols * (h / rows);
        w = w / cols * 1;
        h = h / rows * 1;
        is = refl;
        right = omega (
          arith,
          next_le (p % cols) cols (w / cols) col,
          div-mul-le_self w cols,
          mul_comm cols (w / cols),
        );
        below = omega (
          arith,
          next_le (p / cols) rows (h / rows) row,
          div-mul-le_self h rows,
          mul_comm rows (h / rows),
        );
      }

  same_cell : (p q : ℕ) → p % cols ≡ q % cols → p / cols ≡ q / cols → p ≡ q
  same_cell p q c r =
      sym (div-add-mod' p cols)
      ∙ (ap (λ k. k * cols + p % cols) r ∙ (ap (λ k. q / cols * cols + k) c ∙ div-add-mod' q cols))

  -- In a mosaic whose numbers of columns and rows are above 0, two inputs of one cell each, at different
  -- positions of the grid, stand within the output, and one stands left of the other or above it.
  pub place-AreApart :
      (i j : MosaicInput) (p q : ℕ)
      → IsCell i p
      → IsCell j q
      → p < cols * rows
      → q < cols * rows
      → p ≢ q
      → (r s : Rect) × (place (pos w, pos h) m i ≡ some r)
        × (place (pos w, pos h) m j ≡ some s)
        × (a : IsWithin w h r) × (b : IsWithin w h s) × AreApart a b
  unfolding within
  place-AreApart i j p q ci cj ip iq apart = (
    cell w h cols rows p,
    cell w h cols rows q,
    place-cell i p ci,
    place-cell j q cj,
    within p ip,
    within q iq,
    elim (compare_cases (p % cols) (q % cols)) [
      | inl e ↦ inl (inl (next_le (p % cols) (q % cols) (w / cols) e))
      | inr (inr e) ↦ inl (inr (next_le (q % cols) (p % cols) (w / cols) e))
      | inr (inl c) ↦ inr (elim (compare_cases (p / cols) (q / cols)) [
        | inl e ↦ inl (next_le (p / cols) (q / cols) (h / rows) e)
        | inr (inr e) ↦ inr (next_le (q / cols) (p / cols) (h / rows) e)
        | inr (inl r) ↦ absurd (apart (same_cell p q c r))
      ])
    ],
  )
