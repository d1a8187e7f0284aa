-- ===== src/Event/Fired.antt =====
-- Triggers of app/services/event_decoder.py that have nothing to store, since their vehicle, code and
-- message id are stored.
use welogical_vehicle_tracki.Common.{
  ℕ, ◌≡◌, refl, sym, subst, inl, inr, String, true, not, ◌&&◌, Option, none, some, List, [], ◌∷◌,
  ◌++◌, arith, str_eq, eq_iff, ℤ, pos, negsuc, eqb_ℤ, Bool-cases,
}
use welogical_vehicle_tracki.Models.{DateTime, Event, Database}
use welogical_vehicle_tracki.Packet.{VtsPacket}
use welogical_vehicle_tracki.Event.Trigger.{
  Trigger, is_stored, is_repeated, triggered, trigger_system_event, fire,
}
use welogical_vehicle_tracki.Event.Decoder.{mapped_trigger, mismatch}

pub eqb_ℤ_refl : (z : ℤ) → eqb_ℤ z z ≡ true
eqb_ℤ_refl (pos n) = ground arith
eqb_ℤ_refl (negsuc n) = ground arith

is_repeated-append :
    (events : List Event) (v : ℕ) (txn : String) (m : Option ℤ) (e : Event)
    → is_repeated events v txn m ≡ true
    → is_repeated (events ++ (e ∷ [])) v txn m ≡ true
is_repeated-append events v txn none e h = h
is_repeated-append [] v txn (some m) e h = cc
is_repeated-append (x ∷ xs) v txn (some m) e h =
    ground (arith, is_repeated-append xs v txn (some m) e)

is_stored_self :
    (id v : ℕ) (t : Trigger) (now : DateTime) (m : ℤ)
    → t.msgid ≡ some m
    → is_stored v t.txn m (triggered id v t now) ≡ true
is_stored_self id v t now m e = ground (arith, eq_iff t.txn t.txn, eqb_ℤ_refl m, e)

is_repeated_self :
    (events : List Event) (id v : ℕ) (t : Trigger) (now : DateTime) (m : ℤ)
    → t.msgid ≡ some m
    → is_repeated (events ++ (triggered id v t now ∷ [])) v t.txn (some m) ≡ true
is_repeated_self [] id v t now m e = rw (is_stored_self id v t now m e) refl
is_repeated_self (x ∷ xs) id v t now m e = ground (arith, is_repeated_self xs id v t now m e)

is_repeated_numbered :
    (events : List Event) (id v : ℕ) (t : Trigger) (now : DateTime) (m : ℤ)
    → t.msgid ≡ some m
    → is_repeated (events ++ (triggered id v t now ∷ [])) v t.txn t.msgid ≡ true
is_repeated_numbered events id v t now m e =
    subst (λ x. is_repeated (events ++ (triggered id v t now ∷ [])) v t.txn x ≡ true) (sym e)
      (is_repeated_self events id v t now m e)

-- The trigger carries a message id.
abbrev pub IsMarked : Option Trigger → Type 0
IsMarked none = Unit
IsMarked (some t) = (m : ℤ) × (t.msgid ≡ some m)

-- The trigger has the code "Q" and the message id.
abbrev pub IsParameter : Option ℤ → Option Trigger → Type 0
IsParameter msgid none = Unit
IsParameter msgid (some t) = (t.txn ≡ "Q") × (t.msgid ≡ msgid)

pub mismatch-IsParameter :
    (target device : Option String) (alert : String → String → Trigger) (msgid : Option ℤ)
    → ((d t : String) → IsParameter msgid (some (alert d t)))
    → IsParameter msgid (mismatch target device alert)
mismatch-IsParameter none device alert msgid h = tt
mismatch-IsParameter (some t) none alert msgid h = tt
mismatch-IsParameter (some t) (some d) alert msgid h =
    elim (Bool-cases (not (str_eq t "") && (not (str_eq d "") && not (str_eq d t)))) [
      | inl e ↦ rw e (h d t)
      | inr e ↦ rw e tt
    ]

pub mismatch-IsMarked :
    (target device : Option String) (alert : String → String → Trigger) (m : ℤ)
    → ((d t : String) → (alert d t).msgid ≡ some m)
    → IsMarked (mismatch target device alert)
mismatch-IsMarked none device alert m h = tt
mismatch-IsMarked (some t) none alert m h = tt
mismatch-IsMarked (some t) (some d) alert m h =
    elim (Bool-cases (not (str_eq t "") && (not (str_eq d "") && not (str_eq d t)))) [
      | inl e ↦ rw e (m, h d t)
      | inr e ↦ rw e tt
    ]

module _ {F : Type 0} where
  pub mapped-IsMarked :
      (packet : VtsPacket F) (entry : Option (String × String × String)) (m : ℤ)
      → packet.info.msgid ≡ some m
      → IsMarked (mapped_trigger packet entry)
  mapped-IsMarked packet none m e = tt
  mapped-IsMarked packet (some (a, b, c)) m e = (m, e)

  -- The trigger has nothing to store.
  abbrev pub IsSpent : ℕ → Option Trigger → Database F → Type 0
  IsSpent v none db = Unit
  IsSpent v (some t) db = is_repeated db.events.rows v t.txn t.msgid ≡ true

  pub spent-fire :
      (now : DateTime) (v : ℕ) (t : Option Trigger) (db : Database F)
      → IsSpent v t db
      → fire now v t db ≡ db
  unfolding trigger_system_event
  spent-fire now v none db h = refl
  spent-fire now v (some t) db h = rw (fire, h) refl

  pub fire-IsSpent :
      (now : DateTime) (v : ℕ) (t : Option Trigger) (db : Database F)
      → IsMarked t
      → IsSpent v t (fire now v t db)
  unfolding trigger_system_event
  fire-IsSpent now v none db h = tt
  fire-IsSpent now v (some t) db (m, e) =
      elim (Bool-cases (is_repeated db.events.rows v t.txn t.msgid)) [
        | inl r ↦ rw (fire, r) r
        | inr r ↦ rw (fire, r) (is_repeated_numbered db.events.rows db.events.next_id v t now m e)
      ]

  pub fire-keeps :
      (now : DateTime) (v : ℕ) (t : Option Trigger) (w : ℕ) (u : Option Trigger) (db : Database F)
      → IsSpent w u db
      → IsSpent w u (fire now v t db)
  unfolding trigger_system_event
  fire-keeps now v t w none db h = tt
  fire-keeps now v none w (some u) db h = h
  fire-keeps now v (some t) w (some u) db h =
      elim (Bool-cases (is_repeated db.events.rows v t.txn t.msgid)) [
        | inl r ↦ rw (fire, r) h
        | inr r ↦ rw (fire, r) (is_repeated-append db.events.rows w u.txn u.msgid _ h)
      ]
