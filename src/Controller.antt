-- ===== src/Controller.antt =====
-- src/controller.cc and src/include/controller.h: the error state of one call.
use kim_rpc.Prelude.{◌≡◌, refl, Bool, true, false, List, [], ◌∷◌, Option, none, some, Bytes}

pub record KimRpcController : Type 0 where
  pub m_failed : Bool
  pub m_err_text : Bytes

pub new_controller : KimRpcController
new_controller = record { m_failed = false; m_err_text = [] }

pub reset : KimRpcController → KimRpcController
reset c = record c { m_failed = false; m_err_text = [] }

pub failed : KimRpcController → Bool
failed c = c.m_failed

pub error_text : KimRpcController → Bytes
error_text c = c.m_err_text

unfoldable pub set_failed : Bytes → KimRpcController → KimRpcController
set_failed reason c = record c { m_failed = true; m_err_text = reason }

pub start_cancel : KimRpcController → KimRpcController
start_cancel c = c

pub is_canceled : KimRpcController → Bool
is_canceled c = false

pub notify_on_cancel {ℓ} : {A : Type ℓ} → A → KimRpcController → KimRpcController
notify_on_cancel callback c = c

-- Calls of one controller, oldest first.
pub data Event : Type 0 where
  fails : Bytes → Event
  resets : Event

apply : Event → KimRpcController → KimRpcController
unfolding set_failed reset
apply (fails reason) c = set_failed reason c
apply resets c = reset c

pub run : List Event → KimRpcController → KimRpcController
unfolding apply
run [] c = c
run (e ∷ es) c = run es (apply e c)

-- The last reason since the last reset.
pub last_reason : List Event → Option Bytes → Option Bytes
last_reason [] r = r
last_reason (fails reason ∷ es) r = last_reason es (some reason)
last_reason (resets ∷ es) r = last_reason es none

abbrev pub Reports : KimRpcController → Option Bytes → Type 0
Reports c none = (failed c ≡ false) × (error_text c ≡ [])
Reports c (some reason) = (failed c ≡ true) × (error_text c ≡ reason)

run-Reports :
    (es : List Event) (c : KimRpcController) (r : Option Bytes)
    → Reports c r
    → Reports (run es c) (last_reason es r)
unfolding run last_reason failed error_text
run-Reports [] c r h = h
run-Reports (fails reason ∷ es) c r h = run-Reports es _ (some reason) (refl, refl)
run-Reports (resets ∷ es) c r h = run-Reports es _ none (refl, refl)

-- After any history of a new controller, `Failed` and `ErrorText` report the last reason given since
-- the last `Reset`: with a reason, failed and that text; without one, not failed and the empty text.
pub controller-Reports_last :
    (es : List Event) → Reports (run es new_controller) (last_reason es none)
unfolding new_controller failed error_text
controller-Reports_last es = run-Reports es _ none (refl, refl)
