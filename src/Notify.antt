-- ===== src/Notify.antt =====
-- src/unhalted/shell/notify.py: what a message says, and the gate in front of every channel.
use unhalted.Prelude.{ℕ, Bool, true, false, Option, none, some, List, [], ◌∷◌, if◌then◌else◌}
use unhalted.Clock.{Instant}
use unhalted.Policy.{Policy}
use unhalted.Models.{Text, NudgeVariant, standard, ask_date, exhausted}
use unhalted.Windows.{is_contact_allowed, next_allowed_contact}

-- The three texts, with the amount in paise and the payable link that they carry.
pub data Body : Type 0 where
  nudge_body ask_date_body exhausted_body : ℕ → Option Text → Body
  confirmation_body : ℕ → Body

-- An unknown or missing variant is the first-touch text.
unfoldable pub body_for : Option NudgeVariant → ℕ → Option Text → Body
body_for none amount link = nudge_body amount link
body_for (some standard) amount link = nudge_body amount link
body_for (some ask_date) amount link = ask_date_body amount link
body_for (some exhausted) amount link = exhausted_body amount link

pub data MessageKind : Type 0 where
  nudge_message confirmation : MessageKind

pub record Message : Type 0 where
  pub customer_ref : Text
  pub body : Body
  pub case_id : Text
  pub kind : MessageKind

pub record Delivery : Type 0 where
  pub sent : Bool
  pub deferred_to : Option Instant

-- `Notifier.send`
abbrev pub Notifier : Type 0
Notifier = Message → Delivery

-- `ConsoleNotifier.send`
unfoldable pub console : Notifier
console message = record { sent = true; deferred_to = none }

module _ (p : Policy) where
  -- The delivery, and the messages that were handed to the channel.
  unfoldable pub deliver : Notifier → Message → Instant → Delivery × List Message
  deliver notifier message now =
      if (is_contact_allowed p now).allowed
      then (notifier message, message ∷ [])
      else (record { sent = false; deferred_to = some (next_allowed_contact p now) }, [])
