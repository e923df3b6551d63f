-- ===== src/Grid.antt =====
-- The two grids of characters: the text window of the desktop and the VGA text buffer, which are arrays of
-- rows of one width.
pub mod Terminal
pub mod Vga
mod Tests
use kafka_os.Base.{
  ℕ, zero, suc, ◌+◌, ◌-◌, ◌≡◌, ◌<◌, ◌≤◌, ◌∙◌, refl, true, Option, none, some, List, [], ◌∷◌, ◌++◌,
  ltb, if◌then◌else◌, length, drop, get_elem?, set, replicate, ◌>>=◌, arith, lt→ltb, length-set,
  length-replicate, length-append,
}

-- `cells[row][col] = cell`, which panics out of range.
unfoldable pub put_cell {ℓ} : {A : Type ℓ} → List (List A) → ℕ → ℕ → A → Option (List (List A))
put_cell cells row col cell = do
  line ← get_elem? cells row
  if ltb col (length line) then some (set cells row (set line col cell)) else none

-- Every row moves up by one, and the last one is filled with a cell.
unfoldable pub shift_up {ℓ} : {A : Type ℓ} → ℕ → A → List (List A) → List (List A)
shift_up width cell cells = drop 1 cells ++ replicate width cell ∷ []

module _ {ℓ} {A : Type ℓ} where
  abbrev pub AllWide : ℕ → List (List A) → Type 0
  AllWide width [] = Unit {0}
  AllWide width (row ∷ rows) = (length row ≡ width) × AllWide width rows

  pub record IsGrid (height width : ℕ) (cells : List (List A)) : Type 0 where
    pub high : length cells ≡ height
    pub wide : AllWide width cells

  AllWide-set :
      (width : ℕ) (rows : List (List A)) (i : ℕ) (row : List A)
      → length row ≡ width
      → AllWide width rows
      → AllWide width (set rows i row)
  AllWide-set width [] i row e w = tt
  AllWide-set width (r ∷ rows) zero row e w = (e, w.1)
  AllWide-set width (r ∷ rows) (suc i) row e w = (w.0, AllWide-set width rows i row e w.1)

  AllWide-get :
      (width : ℕ) (rows : List (List A)) (i : ℕ)
      → AllWide width rows
      → i < length rows
      → (row : List A) × (get_elem? rows i ≡ some row) × (length row ≡ width)
  AllWide-get width [] i w h = absurd (omega arith)
  AllWide-get width (r ∷ rows) zero w h = (r, refl, w.0)
  AllWide-get width (r ∷ rows) (suc i) w h = AllWide-get width rows i w.1 (omega arith)

  -- A write in range does not panic, and keeps the grid.
  pub put_cell-IsGrid :
      (height width row col : ℕ) (cells : List (List A)) (cell : A)
      → IsGrid height width cells
      → row < height
      → col < width
      → (written : List (List A)) × (put_cell cells row col cell ≡ some written)
        × IsGrid height width written
  unfolding put_cell
  put_cell-IsGrid height width row col cells cell g h k =
      let (line, e, l) = AllWide-get width cells row g.wide (omega (arith, g.high)) in
      let inside : ltb col (length line) ≡ true = lt→ltb col (length line) (omega arith) in
      (
        set cells row (set line col cell),
        rw (e, ◌>>=◌) (rw inside refl),
        record {
          high = length-set cells row (set line col cell) ∙ g.high;
          wide =
              AllWide-set width cells row (set line col cell) (length-set line col cell ∙ l) g.wide;
        },
      )

  AllWide-append :
      (width : ℕ) (rows more : List (List A))
      → AllWide width rows
      → AllWide width more
      → AllWide width (rows ++ more)
  AllWide-append width [] more w v = v
  AllWide-append width (r ∷ rows) more w v = (w.0, AllWide-append width rows more w.1 v)

  pub shift_up-IsGrid :
      (height width : ℕ) (cells : List (List A)) (cell : A)
      → IsGrid (suc height) width cells
      → IsGrid (suc height) width (shift_up width cell cells)
  unfolding shift_up
  shift_up-IsGrid height width [] cell g = absurd (omega (arith, g.high))
  shift_up-IsGrid height width (row ∷ rows) cell g = record {
    high = length-append rows (replicate width cell ∷ []) ∙ omega (arith, g.high);
    wide = AllWide-append width rows _ g.wide.1 (length-replicate width cell, tt);
  }

  AllWide-replicate :
      (width n : ℕ) (row : List A) → length row ≡ width → AllWide width (replicate n row)
  AllWide-replicate width zero row e = tt
  AllWide-replicate width (suc n) row e = (e, AllWide-replicate width n row e)

  pub blank-IsGrid :
      (height width : ℕ) (cell : A) → IsGrid height width (replicate height (replicate width cell))
  blank-IsGrid height width cell = record {
    high = length-replicate height (replicate width cell);
    wide = AllWide-replicate width height (replicate width cell) (length-replicate width cell);
  }
