-- ===== src/Agent/Reach.antt =====
-- `apply_stop` of src/unhalted/agent.py: what a stop of each scope reaches, and what it leaves alone.
use unhalted.Prelude.{◌≡◌, Bool, false, not, ◌&&◌, ◌==◌, List, any, select, All}
use unhalted.Models.{Text}
use unhalted.Stops.{StopScope, of_case, of_customer, of_merchant}
use unhalted.Store.Tables.{Store, Action, Suppression}
use unhalted.Store.Queue.{is_live}
use unhalted.Store.Suppressions.{in_force}

-- a stop of the case reaches that case; one of the customer or the merchant reaches the customer
abbrev pub reaches : StopScope → Text → Text → Text → Text → Bool
reaches of_case id ref other customer = other == id
reaches of_customer id ref other customer = customer == ref
reaches of_merchant id ref other customer = customer == ref

abbrev pub is_reached : StopScope → Text → Text → Action → Bool
is_reached scope id ref a = reaches scope id ref a.case_id a.customer_ref

abbrev pub is_running : StopScope → Text → Text → Action → Bool
is_running scope id ref a = is_live a.state && is_reached scope id ref a

abbrev pub is_elsewhere : StopScope → Text → Text → Action → Bool
is_elsewhere scope id ref a = not (is_reached scope id ref a)

-- nothing in reach runs, and what is out of reach is as it was
abbrev pub IsStopped : StopScope → Text → Text → List Action → List Action → Type 0
IsStopped scope id ref before after =
    All (λ a. is_running scope id ref a ≡ false) after
    × (select (is_elsewhere scope id ref) after ≡ select (is_elsewhere scope id ref) before)

-- a case of a customer is under a suppression
abbrev pub is_barred : Text → Text → List Suppression → Bool
is_barred id ref xs = any (in_force id ref) xs
