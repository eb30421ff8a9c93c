-- ===== src/Transport/Serial/Rank.antt =====
-- `RankCandidates` of internal/transport/serial/serial.go. The map from ports to candidates is a list with
-- one entry for each port, in the order in which the ports were met.
pub mod Order
pub mod Best
pub mod Wins
pub mod Champion
pub mod Laws
use at_message_forward.Prelude.{Bool, not, ◌&&◌, ◌||◌, List, [], ◌∷◌, if◌then◌else◌, ltb_ℤ}
use at_message_forward.Text.{Text, is_empty, text_eq, text_lt}
use at_message_forward.Sorting.{sort}
use at_message_forward.Transport.Serial.{Candidate}

-- `if existing, ok := best[candidate.Port]; !ok || candidate.Score > existing.Score`.
unfoldable pub put_best : Candidate → List Candidate → List Candidate
put_best c [] = c ∷ []
put_best c (d ∷ best) =
    let rest = put_best c best in
    if text_eq d.port c.port then (if ltb_ℤ d.score c.score then c else d) ∷ best else d ∷ rest

-- The loop that fills the map.
unfoldable pub best_from : List Candidate → List Candidate → List Candidate
best_from best [] = best
best_from best (c ∷ candidates) =
    best_from (if is_empty c.port then best else put_best c best) candidates

-- The test that `sort.Slice` is given.
unfoldable pub ranks_before : Candidate → Candidate → Bool
ranks_before c d = ltb_ℤ d.score c.score || (not (ltb_ℤ c.score d.score) && text_lt c.port d.port)

unfoldable pub rank_candidates : List Candidate → List Candidate
rank_candidates candidates = sort ranks_before (best_from [] candidates)
