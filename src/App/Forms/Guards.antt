-- ===== src/App/Forms/Guards.antt =====
-- When the forms call Firebase, and what they show.
use Prim.Native.String.{String}
use text.Mathlib.Text.{◌==◌}
use text.Mathlib.TextEquality.{eq_iff}
use daily_diary.Base.{◌≡◌, ◌↔◌, arith, List, [], ◌∷◌, ◌++◌, Bool, true, false, some}
use daily_diary.App.{
  Alert, Effect, alert, create_user, update_password, set_password, changes, hud_after,
}
use daily_diary.App.Forms.{is_valid_email, is_valid_password, register_btn_pressed}
use daily_diary.App.Forms.{
  reset_btn_pressed, check_inbox_ok, confirm_pin_btn_pressed, recreate_done_btn_pressed,
}
use daily_diary.App.Forms.{view_did_load, password_read, done_btn_pressed, update_btn_pressed}

-- What a registration must be.
pub record IsComplete (matches : String → String → Bool)
    (user_name email password repeat_pass : String) : Type 0 where
  pub named : (user_name == "") ≡ false
  pub addressed : (email == "") ≡ false
  pub chosen : (password == "") ≡ false
  pub repeated : password ≡ repeat_pass
  pub strong : is_valid_password matches password ≡ true
  pub valid : is_valid_email matches email ≡ true

module _ (matches : String → String → Bool) (user_name email password repeat_pass : String) where
  register_complete :
      IsComplete matches user_name email password repeat_pass
      → changes (register_btn_pressed matches user_name email password repeat_pass)
        ≡ create_user email password ∷ []
  unfolding register_btn_pressed
  register_complete c = ground (arith, eq_iff password repeat_pass)

  register_only :
      changes (register_btn_pressed matches user_name email password repeat_pass)
        ≡ create_user email password ∷ []
      → IsComplete matches user_name email password repeat_pass
  unfolding register_btn_pressed
  register_only h = ground (arith, eq_iff password repeat_pass)

  -- `registerBtnPressed` asks Firebase for the account of the form exactly if the user name, the
  -- e-mail and the password are not empty, the password is repeated, and both patterns are met.
  pub register_btn_pressed-exact :
      (changes (register_btn_pressed matches user_name email password repeat_pass)
        ≡ create_user email password ∷ [])
      ↔ IsComplete matches user_name email password repeat_pass
  register_btn_pressed-exact = (register_only, register_complete)

  -- Whenever `registerBtnPressed` asks nothing of Firebase, it leaves the progress indicator on
  -- the screen.
  pub register_btn_pressed-hud :
      (shown : Bool)
      → changes (register_btn_pressed matches user_name email password repeat_pass) ≡ []
      → hud_after shown (register_btn_pressed matches user_name email password repeat_pass) ≡ true
  unfolding register_btn_pressed
  register_btn_pressed-hud shown h = ground arith

-- Whatever is typed, the three screens for a forgotten password call nothing of Firebase that
-- changes an account; and the last one says that the password was changed exactly if the two new
-- passwords are equal and not empty.
pub recovery-changes_nothing :
    (user_email pin_code new_password repeate_new_password : String)
    → (changes
          (reset_btn_pressed user_email ++ (check_inbox_ok ++ confirm_pin_btn_pressed pin_code))
        ≡ [])
      × (changes (recreate_done_btn_pressed new_password repeate_new_password) ≡ [])
      × ((recreate_done_btn_pressed new_password repeate_new_password
            ≡ alert Alert.password_changed ∷ [])
          ↔ ((new_password ≡ repeate_new_password) × ((new_password == "") ≡ false)))
unfolding reset_btn_pressed check_inbox_ok confirm_pin_btn_pressed recreate_done_btn_pressed
recovery-changes_nothing user_email pin_code new_password repeate_new_password = (
  ground arith,
  ground arith,
  (
    λ h. ground (arith, eq_iff new_password repeate_new_password),
    λ h. ground (arith, eq_iff new_password repeate_new_password),
  ),
)

-- The last effect.
abbrev pub last_effect : Effect → List Effect → Effect
last_effect e [] = e
last_effect e (f ∷ es) = last_effect f es

-- `updateBtnPressed` changes the password, in the account and in the database, exactly if the
-- two new passwords are equal and not empty; in every case it hides the progress indicator, and
-- its last effect is the alert that the password was updated.
pub update_btn_pressed-exact :
    (newpassword repeate_new_password : String) (shown : Bool)
    → ((changes (update_btn_pressed newpassword repeate_new_password)
          ≡ update_password newpassword ∷ set_password newpassword ∷ [])
        ↔ ((newpassword ≡ repeate_new_password) × ((newpassword == "") ≡ false)))
      × (hud_after shown (update_btn_pressed newpassword repeate_new_password) ≡ false)
      × (last_effect Effect.hud_show (update_btn_pressed newpassword repeate_new_password)
          ≡ alert Alert.password_updated)
unfolding update_btn_pressed
update_btn_pressed-exact newpassword repeate_new_password shown = (
  (
    λ h. ground (arith, eq_iff newpassword repeate_new_password),
    λ h. ground (arith, eq_iff newpassword repeate_new_password),
  ),
  ground arith,
  ground arith,
)

-- For an old password that is not empty, the first press of `doneBtnPressed` never opens the
-- form, since the answer of the database is not there; once a password was read from it, a press
-- opens the form exactly if that password was typed.
pub done_btn_pressed-second :
    (old_password password : String)
    → (old_password == "") ≡ false
    → ((done_btn_pressed old_password view_did_load).0 ≡ view_did_load)
      × (((done_btn_pressed old_password (password_read (some password) view_did_load)).0.opened
            ≡ true)
          ↔ (password ≡ old_password))
unfolding done_btn_pressed view_did_load password_read
done_btn_pressed-second old_password password h = (
  ground (arith, eq_iff "" old_password, eq_iff old_password ""),
  (
    λ e. ground (arith, eq_iff password old_password),
    λ e. ground (arith, eq_iff password old_password),
  ),
)
