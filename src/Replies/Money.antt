-- ===== src/Replies/Money.antt =====
-- `decide` of src/unhalted/shell/replies.py: when a reply moves a retry.
use unhalted.Prelude.{◌≤◌, Option, none, some}
use unhalted.Clock.{Day}
use unhalted.Policy.{Policy}

abbrev pub NotAfter : Day → Option Day → Type 0
NotAfter d none = Unit
NotAfter d (some expires) = d ≤ expires
