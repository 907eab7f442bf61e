-- ===== src/App/Navigation.antt =====
-- Which screen follows which: the `present` and `dismiss` calls of the view controllers. Each
-- presented controller lies on top of the one that presents it.
pub mod Reaches
use daily_diary.Base.{List, [], ◌∷◌, Bool, true, false, not, ◌||◌, Option, none, some}
use daily_diary.App.{Screen, log_in, registration, forget_password, confirm_pin, recreate_password}
use daily_diary.App.{my_memories, add_memory, show_memory, my_profile, change_password}

-- What leads to another screen, the answers of Firebase included. An alert with one button is
-- passed through with the event that shows it.
pub data Event : Type 0 where
  signed_in sign_up_pressed forget_password_pressed registered already_pressed back_pressed : Event
  check_inbox_ok pin_confirmed password_changed_ok add_pressed my_profile_pressed : Event
  row_selected saved_ok cancel_pressed deleted_ok edit_pressed update_password_pressed : Event
  password_updated_ok : Event
  -- Log out, by whether `signOut` throws.
  logged_out : Bool → Event

-- The presented controllers, the visible one first, whether `currentUser` is set, and whether the
-- app runs: forcing `currentUser` where it is not set stops it.
pub record Nav : Type 0 where
  pub stack : List Screen
  pub user : Bool
  pub running : Bool

-- `viewDidLoad` forces `currentUser`, in `retriveMemories` and `getUserNameFromDatabase`.
abbrev pub loads_user : Screen → Bool
loads_user my_memories = true
loads_user my_profile = true
loads_user _ = false

-- `present` loads the controller.
abbrev pub push : Screen → List Screen → Bool → Option Nav
push s stack user =
    some (record { stack = s ∷ stack; user = user; running = user || not (loads_user s) })

-- `dismiss` on the visible controller. The one below is loaded already.
abbrev pub pop : List Screen → Bool → Option Nav
pop [] user = none
pop (s ∷ stack) user = some (record { stack = stack; user = user; running = true })

-- `none` for an event that the visible screen does not offer.
pub on_log_in : Event → List Screen → Bool → Option Nav
on_log_in signed_in stack user = push my_memories stack true
on_log_in sign_up_pressed stack user = push registration stack user
on_log_in forget_password_pressed stack user = push forget_password stack user
on_log_in _ stack user = none

pub on_registration : Event → List Screen → Bool → Option Nav
on_registration registered stack user = push my_memories stack true
on_registration already_pressed stack user = pop stack user
on_registration _ stack user = none

pub on_forget_password : Event → List Screen → Bool → Option Nav
on_forget_password check_inbox_ok stack user = push confirm_pin stack user
on_forget_password back_pressed stack user = pop stack user
on_forget_password _ stack user = none

pub on_confirm_pin : Event → List Screen → Bool → Option Nav
on_confirm_pin pin_confirmed stack user = push recreate_password stack user
on_confirm_pin _ stack user = none

pub on_recreate_password : Event → List Screen → Bool → Option Nav
on_recreate_password password_changed_ok stack user = push log_in stack user
on_recreate_password _ stack user = none

pub on_my_memories : Event → List Screen → Bool → Option Nav
on_my_memories add_pressed stack user = push add_memory stack user
on_my_memories my_profile_pressed stack user = push my_profile stack user
on_my_memories row_selected stack user = push show_memory stack user
on_my_memories _ stack user = none

pub on_add_memory : Event → List Screen → Bool → Option Nav
on_add_memory saved_ok stack user = push my_memories stack user
on_add_memory cancel_pressed stack user = push my_memories stack user
on_add_memory _ stack user = none

pub on_show_memory : Event → List Screen → Bool → Option Nav
on_show_memory back_pressed stack user = pop stack user
on_show_memory deleted_ok stack user = push my_memories stack user
on_show_memory edit_pressed stack user = push add_memory stack user
on_show_memory _ stack user = none

pub on_my_profile : Event → List Screen → Bool → Option Nav
on_my_profile back_pressed stack user = pop stack user
on_my_profile update_password_pressed stack user = push change_password stack user
on_my_profile (logged_out false) stack user = push log_in stack false
on_my_profile (logged_out true) stack user = push log_in stack user
on_my_profile _ stack user = none

pub on_change_password : Event → List Screen → Bool → Option Nav
on_change_password back_pressed stack user = pop stack user
on_change_password password_updated_ok stack user = push my_profile stack user
on_change_password _ stack user = none

-- The event on the visible screen, of an app that runs.
unfoldable pub move_on : Event → List Screen → Bool → Option Nav
unfolding on_log_in on_registration on_forget_password on_confirm_pin on_recreate_password
    on_my_memories on_add_memory on_show_memory on_my_profile on_change_password
move_on e [] user = none
move_on e (log_in ∷ stack) user = on_log_in e (log_in ∷ stack) user
move_on e (registration ∷ stack) user = on_registration e (registration ∷ stack) user
move_on e (forget_password ∷ stack) user = on_forget_password e (forget_password ∷ stack) user
move_on e (confirm_pin ∷ stack) user = on_confirm_pin e (confirm_pin ∷ stack) user
move_on e (recreate_password ∷ stack) user = on_recreate_password e (recreate_password ∷ stack) user
move_on e (my_memories ∷ stack) user = on_my_memories e (my_memories ∷ stack) user
move_on e (add_memory ∷ stack) user = on_add_memory e (add_memory ∷ stack) user
move_on e (show_memory ∷ stack) user = on_show_memory e (show_memory ∷ stack) user
move_on e (my_profile ∷ stack) user = on_my_profile e (my_profile ∷ stack) user
move_on e (change_password ∷ stack) user = on_change_password e (change_password ∷ stack) user

-- The controllers that force `currentUser` to be set.
abbrev pub needs_user : Screen → Bool
needs_user log_in = false
needs_user registration = false
needs_user forget_password = false
needs_user confirm_pin = false
needs_user recreate_password = false
needs_user my_memories = true
needs_user add_memory = true
needs_user show_memory = true
needs_user my_profile = true
needs_user change_password = true
