-- ===== src/Committee/Quorum.antt =====
-- The arithmetic of the two thresholds of core/config.go.
use s_mvba.Base.{◌+◌, ◌-◌, ◌*◌, ◌%◌, ◌≤◌, ◌<◌, ◌≡◌, ◌↔◌, arith}
use s_mvba.Committee.{Committee, size, hight_threshold, low_threshold}

-- For a committee that is not empty, any two sets of `HightThreshold` members have
-- `LowThreshold` members in common (by counting: twice the high threshold is at least the size
-- plus the low one) exactly when the size is 3f+1.
pub quorums_overlap :
    (c : Committee)
    → 0 < size c
    → (size c + low_threshold c ≤ 2 * hight_threshold c) ↔ (size c % 3 ≡ 1)
unfolding hight_threshold low_threshold
quorums_overlap c h = (λ k. omega arith, λ k. omega arith)

pub hight-pos : (c : Committee) → 0 < hight_threshold c
unfolding hight_threshold
hight-pos c = omega arith

-- For a committee that is not empty, the high threshold is met by the members that are left when
-- `LowThreshold - 1` of them are silent, and lies above the low threshold exactly when the
-- committee has four members or more.
pub quorum_reachable :
    (c : Committee)
    → 0 < size c
    → (hight_threshold c + (low_threshold c - 1) ≤ size c)
      × ((low_threshold c < hight_threshold c) ↔ (4 ≤ size c))
unfolding hight_threshold low_threshold
quorum_reachable c h = (omega arith, (λ k. omega arith, λ k. omega arith))
