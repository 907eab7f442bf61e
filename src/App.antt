-- ===== src/App.antt =====
-- The view controllers of DailyDiary/DailyDiary/controller. A handler is a function from what it
-- reads (text fields, answers of services) to the effects that it has, in order.
pub mod Forms
pub mod Diary
pub mod Navigation
use Prim.Native.String.{String}
use daily_diary.Base.{List, [], ◌∷◌, Bool, true, false}

pub data Screen : Type 0 where
  log_in registration forget_password confirm_pin recreate_password : Screen
  my_memories add_memory show_memory my_profile change_password : Screen

-- The alerts, each named for its message.
pub data Alert : Type 0 where
  enter_email enter_password wrong_email_or_password : Alert
  all_fields_required passwords_differ weak_password invalid_email registered : Alert
  email_required check_inbox write_pin wrong_pin : Alert
  enter_new_password password_changed : Alert
  old_password_required wrong_password enter_password_twice password_updated : Alert

-- What a handler does outside of itself. The calls of Firebase stand for themselves; their
-- completion handlers are handlers of their own.
pub data Effect : Type 0 where
  hud_show hud_dismiss : Effect
  alert : Alert → Effect
  present : Screen → Effect
  sign_in create_user : String → String → Effect
  read_password : Effect
  update_password set_password : String → Effect

-- The calls of Firebase that change an account.
abbrev pub changes : List Effect → List Effect
changes [] = []
changes (create_user e p ∷ es) = create_user e p ∷ changes es
changes (update_password p ∷ es) = update_password p ∷ changes es
changes (set_password p ∷ es) = set_password p ∷ changes es
changes (e ∷ es) = changes es

-- Whether the progress indicator is on the screen behind the effects.
abbrev pub hud_after : Bool → List Effect → Bool
hud_after shown [] = shown
hud_after shown (hud_show ∷ es) = hud_after true es
hud_after shown (hud_dismiss ∷ es) = hud_after false es
hud_after shown (e ∷ es) = hud_after shown es
