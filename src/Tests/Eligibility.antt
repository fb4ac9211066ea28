-- ===== src/Tests/Eligibility.antt =====
-- The ring of arrival times at a concrete input.
use voxtral_cpp.Prelude.{ℕ, ◌≡◌, [], ◌∷◌, arith}
use voxtral_cpp.Stream.Eligibility.{group_eligibility_ms}
use voxtral_cpp.Stream.Eligibility.Latest.{Commits, noted, latest, group_eligibility_ms-latest}

-- Four groups, after two others, in a ring for four.
abbrev commits : Commits ℕ
commits = (3, 250) ∷ (1, 170) ∷ (2, 90) ∷ []

group_eligibility_ms-latest_example :
    group_eligibility_ms 0 (noted 0 4 commits) 2 ≡ latest 0 4 commits 2
group_eligibility_ms-latest_example = group_eligibility_ms-latest 0 4 commits 2 (omega arith)
