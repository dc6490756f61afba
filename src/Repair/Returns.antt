-- ===== src/Repair/Returns.antt =====
-- The commands of repair/controller.py that return: the parts of a chain of actions, and steps.
use blindspot_remediation.Prelude.{String, Bool, true, false, ◌≡◌, refl, arith}
use blindspot_remediation.Repair.Models.{RepairState, RepairSession}
use blindspot_remediation.Repair.Store.{Codec}
use blindspot_remediation.Repair.Actions.{
  Result, ok, err, World, Action, ◌>>=◌, raise_unless, read_session, Failure,
}
use blindspot_remediation.Repair.Controller.{is_repairing, is_awaiting_approval, is_awaiting_final}
use blindspot_remediation.Repair.Lifecycle.{Reach, here, next}

-- What returns after a bind, both parts have returned.
pub bind_inv :
    {T A B : Type 0} (m : Action T A) (f : A → Action T B) (w : World T) (b : B) (w' : World T)
    → (m >>= f) w ≡ (ok b, w')
    → (a : A) × (w'' : World T) × (m w ≡ (ok a, w'')) × (f a w'' ≡ (ok b, w'))
bind_inv {T} {A} {B} m f w b w' h = split (m w) refl h
  where
    split :
        (o : Result A × World T)
        → m w ≡ o
        → elim o.0 [ ok a ↦ f a o.1 | err e ↦ (err e, o.1) ] ≡ (ok b, w')
        → (a : A) × (w'' : World T) × (m w ≡ (ok a, w'')) × (f a w'' ≡ (ok b, w'))
    split (ok a, w'') e k = (a, w'', e, k)
    split (err x, w'') e k = cc

pub state_of_awaiting :
    (st : RepairState) → is_awaiting_approval st ≡ true → st ≡ RepairState.awaiting_approval
state_of_awaiting st h = ground arith

pub state_of_repairing : (st : RepairState) → is_repairing st ≡ true → st ≡ RepairState.repairing
state_of_repairing st h = ground arith

pub state_of_final :
    (st : RepairState) → is_awaiting_final st ≡ true → st ≡ RepairState.awaiting_final_approval
state_of_final st h = ground arith

pub Reach-trans : {s t u : RepairSession} → Reach s t → Reach t u → Reach s u
Reach-trans r here = r
Reach-trans r (next q st) = next (Reach-trans r q) st

module _ {T : Type 0} where
  pub raise_unless-returns :
      (b : Bool) (failure : Failure) (w w' : World T) (u : Unit {0})
      → raise_unless b failure w ≡ (ok u, w')
      → b ≡ true
  raise_unless-returns true failure w w' u h = refl
  raise_unless-returns false failure w w' u h = cc

module _ {T : Type 0} (codec : Codec) where
  -- The command read the session `s` and returned one that is reached from it.
  abbrev pub Advances : String → World T → RepairSession → Type 0
  Advances session_id w t =
      (s : RepairSession) × (w'' : World T) × (read_session codec session_id w ≡ (ok s, w''))
      × Reach s t
