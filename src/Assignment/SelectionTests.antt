-- ===== src/Assignment/SelectionTests.antt =====
-- A selection on the store that a claim leaves.
use team5_ewaste_platform.Claim.Samples as Claims
use team5_ewaste_platform.Assignment.Statements.{latest}
use team5_ewaste_platform.Assignment.Statements.{latest}
