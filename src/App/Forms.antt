-- ===== src/App/Forms.antt =====
-- The forms: logInViewController, registrationViewController, forgetPasswordViewController,
-- confirmPINViewController, recreatePasswordViewController and changePasswordViewController.
pub mod Guards
use Prim.Native.String.{String}
use text.Mathlib.Text.{◌==◌}
use daily_diary.Base.{
  List, [], ◌∷◌, ◌++◌, Bool, true, false, not, ◌||◌, if◌then◌else◌, Option, none, some,
}
use daily_diary.App.{
  Alert, Effect, hud_show, hud_dismiss, alert, present, sign_in, create_user, read_password,
}
use daily_diary.App.{update_password, set_password, Screen}

unfoldable pub log_in_btn_pressed : String → String → List Effect
log_in_btn_pressed email password =
    hud_show
    ∷ (if email == ""
        then alert Alert.enter_email ∷ []
        else if password == ""
        then alert Alert.enter_password ∷ []
        else sign_in email password ∷ [])

-- The completion handler of `signIn`, by whether there is an error.
unfoldable pub signed_in : Bool → List Effect
signed_in true = alert Alert.wrong_email_or_password ∷ hud_dismiss ∷ []
signed_in false = hud_dismiss ∷ present Screen.my_memories ∷ []

-- The registration form. `matches` is NSPredicate's "SELF MATCHES", of a pattern and a text.
module _ (matches : String → String → Bool) where
  unfoldable pub is_valid_email : String → Bool
  is_valid_email email = matches "[A-Z0-9a-z._%+-]+@[A-Za-z0-9.-]+\\.[A-Za-z]{2,}" email

  unfoldable pub is_valid_password : String → Bool
  is_valid_password test_str = matches "(?=.*[A-Z])(?=.*[0-9])(?=.*[a-z]).{8,}" test_str

  unfoldable pub register_btn_pressed : String → String → String → String → List Effect
  register_btn_pressed user_name email password repeat_pass =
      hud_show
      ∷ (if user_name == "" || (email == "" || (password == "" || repeat_pass == ""))
          then alert Alert.all_fields_required ∷ []
          else if not (password == repeat_pass)
          then alert Alert.passwords_differ ∷ []
          else if not (is_valid_password password)
          then alert Alert.weak_password ∷ []
          else if not (is_valid_email email)
          then alert Alert.invalid_email ∷ []
          else create_user email password ∷ [])

unfoldable pub reset_btn_pressed : String → List Effect
reset_btn_pressed user_email =
    (if user_email == "" then alert Alert.email_required ∷ [] else [])
    ++ alert Alert.check_inbox ∷ []

-- OK on the alert that the PIN is in the inbox.
unfoldable pub check_inbox_ok : List Effect
check_inbox_ok = present Screen.confirm_pin ∷ []

unfoldable pub confirm_pin_btn_pressed : String → List Effect
confirm_pin_btn_pressed pin_code =
    if pin_code == ""
    then alert Alert.write_pin ∷ []
    else if not (pin_code == "1")
    then alert Alert.wrong_pin ∷ []
    else present Screen.recreate_password ∷ []

-- `doneBtnPresed` of recreatePasswordViewController.
unfoldable pub recreate_done_btn_pressed : String → String → List Effect
recreate_done_btn_pressed new_password repeate_new_password =
    if new_password == "" || repeate_new_password == ""
    then alert Alert.enter_new_password ∷ []
    else if not (new_password == repeate_new_password)
    then alert Alert.passwords_differ ∷ []
    else alert Alert.password_changed ∷ []

-- changePasswordViewController: `userPassword`, and whether the second half of the form shows.
pub record ChangePassword : Type 0 where
  pub user_password : String
  pub opened : Bool

unfoldable pub view_did_load : ChangePassword
view_did_load = record { user_password = ""; opened = false }

-- The database's answer to `observeSingleEvent`; `none` is for no password there.
unfoldable pub password_read : Option String → ChangePassword → ChangePassword
password_read none c = record c { user_password = "not found" }
password_read (some password) c = record c { user_password = password }

-- `doneBtnPressed`: the test reads `userPassword` as it is, before the answer to this press.
unfoldable pub done_btn_pressed : String → ChangePassword → ChangePassword × List Effect
done_btn_pressed old_password c =
    if old_password == ""
    then (c, read_password ∷ alert Alert.old_password_required ∷ [])
    else if not (c.user_password == old_password)
    then (c, read_password ∷ alert Alert.wrong_password ∷ [])
    else (record c { opened = true }, read_password ∷ [])

unfoldable pub update_btn_pressed : String → String → List Effect
update_btn_pressed newpassword repeate_new_password =
    hud_show
      ∷ (if newpassword == "" || repeate_new_password == ""
          then alert Alert.enter_password_twice ∷ []
          else if not (newpassword == repeate_new_password)
          then alert Alert.passwords_differ ∷ []
          else update_password newpassword ∷ set_password newpassword ∷ [])
    ++ hud_dismiss ∷ alert Alert.password_updated ∷ []
