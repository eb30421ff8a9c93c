-- ===== src/Transport/Serial/Rank/Laws.antt =====
-- `RankCandidates` of internal/transport/serial/serial.go against a description that names neither a
-- sorting algorithm nor an order of the map.
use at_message_forward.Prelude.{[], ◌∷◌, true, List, ◌≡◌, sym, ◌↔◌, All, through, both, same_iff}
use mathlib.Core.Path.{subst}
use at_message_forward.Sorting.Laws.{In, IsAscending, IsAscending-unique, In-sort, sort-IsAscending}
use at_message_forward.Transport.Serial.{Candidate}
use at_message_forward.Transport.Serial.Rank.{ranks_before, rank_candidates, best_from}
use at_message_forward.Transport.Serial.Rank.Order.{
  Outranks, ranks_before_iff, ranks_before_irreflexive, ranks_before_transitive,
}
use at_message_forward.Transport.Serial.Rank.Best.{In-best_from, best_from-TellsApart}
use at_message_forward.Transport.Serial.Rank.Champion.{IsChampion, champion_iff}
use at_message_forward.Sorting.{sort}

-- Each item outranks all behind it.
abbrev pub IsRanked : List Candidate → Type 0
IsRanked [] = Unit
IsRanked (c ∷ candidates) = All (Outranks c) candidates × IsRanked candidates

-- A list of the champions of all ports, by falling score and, of the same score, rising port.
abbrev pub IsRanking : List Candidate → List Candidate → Type 0
IsRanking candidates ranked =
    IsRanked ranked × ((c : Candidate) → In c ranked ↔ IsChampion candidates c)

All_iff :
    {A : Type 0} (P Q : A → Type 0) → ((a : A) → P a ↔ Q a) → (xs : List A) → All P xs ↔ All Q xs
All_iff P Q h [] = same_iff
All_iff P Q h (x ∷ xs) = both (h x) (All_iff P Q h xs)

IsAscending-IsRanked : (ranked : List Candidate) → IsAscending ranks_before ranked ↔ IsRanked ranked
IsAscending-IsRanked [] = same_iff
IsAscending-IsRanked (c ∷ ranked) =
    both (All_iff (λ d. ranks_before c d ≡ true) (Outranks c) (ranks_before_iff c) ranked)
      (IsAscending-IsRanked ranked)

rank_candidates-IsRanking :
    (candidates : List Candidate) → IsRanking candidates (rank_candidates candidates)
unfolding rank_candidates
rank_candidates-IsRanking candidates = (
  (IsAscending-IsRanked (sort ranks_before (best_from [] candidates))).0 (
      sort-IsAscending ranks_before ranks_before_transitive (best_from [] candidates)
        (best_from-TellsApart candidates)),
  λ c.
      through (In-sort ranks_before c (best_from [] candidates))
        (through (In-best_from c candidates) (champion_iff candidates c)),
)

-- A list is the result of `RankCandidates` exactly when its items stand by falling score and, of
-- the same score, by rising port, and they are, for each port that is not empty, the first of its
-- candidates with the highest score. So neither the order in which the map is read nor the sorting
-- algorithm decides anything.
pub rank_candidates_iff :
    (candidates ranked : List Candidate)
    → (ranked ≡ rank_candidates candidates) ↔ IsRanking candidates ranked
rank_candidates_iff candidates ranked =
    let own : IsRanking candidates (rank_candidates candidates) =
      rank_candidates-IsRanking candidates in
    (
      λ same. subst (IsRanking candidates) (sym same) own,
      λ h.
          IsAscending-unique ranks_before ranks_before_irreflexive ranks_before_transitive ranked
            (rank_candidates candidates) ((IsAscending-IsRanked ranked).1 h.0)
            ((IsAscending-IsRanked (rank_candidates candidates)).1 own.0)
            (λ c found. (own.1 c).1 ((h.1 c).0 found)) (λ c found. (h.1 c).1 ((own.1 c).0 found)),
    )
