-- ===== src/DioOffsets/Spans/Totals.antt =====
-- How many bytes a test transfers in total.
use ndt.Base.{ℕ, ◌+◌}
use ndt.Base.{List, [], ◌∷◌}
use ndt.DioOffsets.Globals.{Globals}
use ndt.DioOffsets.Spans.{Span, spans}

-- The bytes of all spans.
unfoldable pub total : List Span → ℕ
total [] = 0
total (s ∷ spans) = s.size + total spans
