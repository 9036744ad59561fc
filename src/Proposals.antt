-- ===== src/Proposals.antt =====
-- The proposals that src/unhalted/core makes to a person: a change of the policy, and a rule of the
-- taxonomy. Nothing here is applied.
pub mod PolicyChange
pub mod TaxonomyRule
pub mod Grounded
pub mod Supported
