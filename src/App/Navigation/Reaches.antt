-- ===== src/App/Navigation/Reaches.antt =====
-- No visible screen misses its user, and the diary is in reach of every screen.
use daily_diary.Base.{◌≡◌, List, [], ◌∷◌, Bool, true, false, ◌||◌, some}
use daily_diary.App.{Screen, log_in, registration, forget_password, confirm_pin, recreate_password}
use daily_diary.App.{my_memories}
use daily_diary.App.Navigation.{Event, Nav, move_on}

-- An event that the visible screen offers, while the app runs.
pub data Step (s t : Nav) : Type 0 where
  on : (e : Event) → s.running ≡ true → move_on e s.stack s.user ≡ some t → Step s t

pub data Reach : Nav → Nav → Type 0 where
  here : {s : Nav} → Reach s s
  next : {s : Nav} {t : Nav} {u : Nav} → Step s t → Reach t u → Reach s u

-- From the visible screen down to the topmost log-in form, no screen needs a user.
abbrev guarded : List Screen → Bool
guarded [] = true
guarded (log_in ∷ stack) = true
guarded (registration ∷ stack) = guarded stack
guarded (forget_password ∷ stack) = guarded stack
guarded (confirm_pin ∷ stack) = guarded stack
guarded (recreate_password ∷ stack) = guarded stack
guarded (_ ∷ stack) = false

IsGuarded : Nav → Type 0
IsGuarded s = (s.user || guarded s.stack) ≡ true

-- The app as it starts, with the user that Firebase kept from before, or none.
abbrev pub launched : Bool → Nav
launched user = record { stack = log_in ∷ []; user = user; running = true }

-- A log-in form is among the presented screens.
abbrev has_form : List Screen → Bool
has_form [] = false
has_form (log_in ∷ stack) = true
has_form (_ ∷ stack) = has_form stack

-- The app runs, over a log-in form.
IsUp : Nav → Type 0
IsUp s = (s.running ≡ true) × (has_form s.stack ≡ true)

-- The diary is on the screen of an app that runs, of a user.
abbrev pub ShowsDiary : Nav → Type 0
ShowsDiary t =
    (below : List Screen) × (t
      ≡ record { stack = my_memories ∷ below; user = true; running = true })

abbrev pub at : Screen → List Screen → Bool → Nav
at top below user = record { stack = top ∷ below; user = user; running = true }

-- Some events lead to the diary.
abbrev pub LeadsToDiary : Nav → Type 0
LeadsToDiary s = (t : Nav) × Reach s t × ShowsDiary t
