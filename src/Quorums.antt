-- ===== src/Quorums.antt =====
-- How the aggregators of core/smvba/consensus/aggreator.go answer over sequences of votes.
pub mod Distinct
pub mod Certificates
pub mod Ballots
