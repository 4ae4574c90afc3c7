-- ===== src/Iso/Life/Slots.antt =====
-- The number of transfers in flight.
use djm_t1_linux.Base.{
  ℕ, zero, suc, ◌+◌, ◌≤◌, ◌≡◌, refl, ap, Bool, true, false, some, List, [], ◌∷◌, ◌++◌, arith,
  get_elem?, set, length, if◌then◌else◌,
}
use djm_t1_linux.Iso.Life.{Slot, slot_of, in_flight}

pub in_flight_le : (slots : List Slot) → in_flight slots ≤ length slots
unfolding in_flight
in_flight_le [] = omega arith
in_flight_le (Slot.idle ∷ slots) = omega (arith, in_flight_le slots)
in_flight_le (Slot.active ∷ slots) = omega (arith, in_flight_le slots)

-- One more transfer.
pub in_flight-append :
    (slots : List Slot) (ok : Bool)
    → in_flight (slots ++ slot_of ok ∷ []) ≡ (if ok then in_flight slots + 1 else in_flight slots)
unfolding in_flight
in_flight-append [] true = omega arith
in_flight-append [] false = refl
in_flight-append (Slot.idle ∷ slots) ok = in_flight-append slots ok
in_flight-append (Slot.active ∷ slots) true = omega (arith, in_flight-append slots true)
in_flight-append (Slot.active ∷ slots) false = ap suc (in_flight-append slots false)

-- A transfer that is in flight comes back.
pub in_flight-set :
    (slots : List Slot) (i : ℕ) (again : Bool)
    → get_elem? slots i ≡ some Slot.active
    → in_flight slots ≡ in_flight (set slots i (slot_of again)) + (if again then 0 else 1)
unfolding in_flight
in_flight-set [] i again h = cc h
in_flight-set (Slot.idle ∷ slots) zero again h = cc h
in_flight-set (Slot.active ∷ slots) zero true h = omega arith
in_flight-set (Slot.active ∷ slots) zero false h = omega arith
in_flight-set (Slot.idle ∷ slots) (suc i) again h = in_flight-set slots i again h
in_flight-set (Slot.active ∷ slots) (suc i) again h = omega (arith, in_flight-set slots i again h)
