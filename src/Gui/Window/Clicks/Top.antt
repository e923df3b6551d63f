-- ===== src/Gui/Window/Clicks/Top.antt =====
-- A click is for the topmost window under the cursor, which it raises.
use kafka_os.Base.{◌≡◌, false, List, [], ◌∷◌}
use kafka_os.Base.Int.{ℤ}
use kafka_os.Gui.Geometry.{Rect}
use kafka_os.Gui.Window.{Window, rect, hits}

-- No window of a list is hit.
abbrev pub AreMissed : ℤ → ℤ → List Window → Type 0
AreMissed x y [] = Unit {0}
AreMissed x y (w ∷ windows) = (hits w x y ≡ false) × AreMissed x y windows

-- The damage of a raised window, which is none where it is the top one.
abbrev pub raise_damage : List Window → Window → List Rect
raise_damage [] w = []
raise_damage (v ∷ above) w = rect w ∷ []
