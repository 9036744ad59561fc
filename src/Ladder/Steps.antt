-- ===== src/Ladder/Steps.antt =====
-- `next_rung` of src/unhalted/shell/ladder.py: the order of the rungs.
use unhalted.Prelude.{ℕ, ◌<◌, ◌≡◌, ◌≢◌, ◌↔◌, ◌⊎◌, true, false, none, some, List, any, arith}
use unhalted.Models.{Rung, silent_retry, nudge, reauthorisation, voice_call, human_callback}
use unhalted.Ladder.{Channel, is_voice, next_rung}

-- `Rung.value`
abbrev pub value : Rung → ℕ
value silent_retry = 1
value nudge = 2
value reauthorisation = 3
value voice_call = 4
value human_callback = 5

-- The next rung stands above the current one, and a voice call is next only if the customer has not
-- refused it.
pub next_rung_above :
    (current next : Rung) (refused : List Channel)
    → next_rung current refused ≡ some next
    → (value current < value next) × ((next ≢ voice_call) ⊎ (any is_voice refused ≡ false))
unfolding next_rung
next_rung_above current next refused h = ground arith

-- A rung that is passed over is a voice call that the customer refused.
pub next_rung_skips :
    (current next between : Rung) (refused : List Channel)
    → next_rung current refused ≡ some next
    → value current < value between
    → value between < value next
    → (between ≡ voice_call) × (any is_voice refused ≡ true)
unfolding next_rung
next_rung_skips current next between refused h = ground arith

-- The climb ends at the human callback and nowhere else.
pub next_rung-none :
    (current : Rung) (refused : List Channel)
    → (next_rung current refused ≡ none) ↔ (current ≡ human_callback)
unfolding next_rung
next_rung-none current refused = ground arith
