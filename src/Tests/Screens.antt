-- ===== src/Tests/Screens.antt =====
-- The view controllers at concrete inputs.
use Prim.Native.String.{String}
use text.Mathlib.Text.{◌==◌}
use mathlib.Core.List.{map}
use daily_diary.Base.{
  ◌≡◌, refl, ◌↔◌, List, [], ◌∷◌, ◌++◌, Bool, true, false, ◌&&◌, if◌then◌else◌, Option, none, some,
}
use daily_diary.App.{
  Alert, Effect, alert, create_user, update_password, set_password, changes, hud_after,
}
use daily_diary.App.Forms.{
  register_btn_pressed, reset_btn_pressed, check_inbox_ok, confirm_pin_btn_pressed,
}
use daily_diary.App.Forms.{
  recreate_done_btn_pressed, update_btn_pressed, done_btn_pressed, view_did_load, password_read,
}
use daily_diary.App.Forms.Guards.{IsComplete, register_btn_pressed-exact, register_btn_pressed-hud}
use daily_diary.App.Forms.Guards.{
  recovery-changes_nothing, update_btn_pressed-exact, last_effect, done_btn_pressed-second,
}
use daily_diary.App.Diary.{Memory, Dictionary, Database, memories_dictionary, retrive_memories}
use daily_diary.App.Diary.Refines.{Action, add, delete, meanings, acts, Represents}
use daily_diary.App.Diary.Refines.{acts-Represents, acts-others, retrive_memories-dictionaries}

abbrev all_match : String → String → Bool
all_match pattern text = true

register_btn_pressed-exact_example :
    (changes (register_btn_pressed all_match "Mo" "mo@x.org" "Diary2019" "Diary2019")
      ≡ create_user "mo@x.org" "Diary2019" ∷ [])
    ↔ IsComplete all_match "Mo" "mo@x.org" "Diary2019" "Diary2019"
register_btn_pressed-exact_example =
    register_btn_pressed-exact all_match "Mo" "mo@x.org" "Diary2019" "Diary2019"

no_name : changes (register_btn_pressed all_match "" "mo@x.org" "Diary2019" "Diary2019") ≡ []
unfolding register_btn_pressed
no_name = refl

register_btn_pressed-hud_example :
    hud_after false (register_btn_pressed all_match "" "mo@x.org" "Diary2019" "Diary2019") ≡ true
register_btn_pressed-hud_example =
    register_btn_pressed-hud all_match "" "mo@x.org" "Diary2019" "Diary2019" false no_name

recovery-changes_nothing_example :
    (changes (reset_btn_pressed "mo@x.org" ++ (check_inbox_ok ++ confirm_pin_btn_pressed "1")) ≡ [])
    × (changes (recreate_done_btn_pressed "Diary2020" "Diary2020") ≡ [])
    × ((recreate_done_btn_pressed "Diary2020" "Diary2020" ≡ alert Alert.password_changed ∷ [])
        ↔ ((◌≡◌ {A = String} "Diary2020" "Diary2020") × (("Diary2020" == "") ≡ false)))
recovery-changes_nothing_example = recovery-changes_nothing "mo@x.org" "1" "Diary2020" "Diary2020"

update_btn_pressed-exact_example :
    ((changes (update_btn_pressed "a" "b") ≡ update_password "a" ∷ set_password "a" ∷ [])
      ↔ ((◌≡◌ {A = String} "a" "b") × (("a" == "") ≡ false)))
    × (hud_after false (update_btn_pressed "a" "b") ≡ false)
    × (last_effect Effect.hud_show (update_btn_pressed "a" "b") ≡ alert Alert.password_updated)
update_btn_pressed-exact_example = update_btn_pressed-exact "a" "b" false

done_btn_pressed-second_example :
    ((done_btn_pressed "Diary2019" view_did_load).0 ≡ view_did_load)
    × (((done_btn_pressed "Diary2019" (password_read (some "Diary2019") view_did_load)).0.opened
          ≡ true)
        ↔ (◌≡◌ {A = String} "Diary2019" "Diary2019"))
done_btn_pressed-second_example = done_btn_pressed-second "Diary2019" "Diary2019" refl

-- A database as the writes to it, the last one first.
abbrev written : List (String × String × Option Dictionary) → String → String → Option Dictionary
written [] user key = none
written ((u, k, d) ∷ db) user key = if u == user && k == key then d else written db user key

abbrev log_database : Database
log_database = record {
  Db = List (String × String × Option Dictionary);
  value = written;
  set_value = λ db user key d. (user, key, some d) ∷ db;
  remove_value = λ db user key. (user, key, none) ∷ db;
  value-set = λ db user key d user' key'. refl;
  value-remove = λ db user key user' key'. refl;
}

abbrev actions : List Action
actions = add "k1" "28/03/2019" "Rain" "It rained." ∷ delete "k0" ∷ []

acts-Represents_example :
    Represents log_database "u" (acts log_database "u" actions []) (meanings actions (λ key. none))
acts-Represents_example = acts-Represents log_database "u" actions [] (λ key. none) (λ key. refl)

acts-others_example : written (acts log_database "u" actions []) "v" "k1" ≡ none
acts-others_example = acts-others log_database "u" actions [] "v" "k1" refl

abbrev rain : Memory
rain = record {
  memory_id = "k1";
  memory_title = "Rain";
  memory_body = "It rained.";
  memory_date = "28/03/2019";
}

retrive_memories-dictionaries_example :
    retrive_memories [] (map memories_dictionary (rain ∷ [])) ≡ some (rain ∷ [])
retrive_memories-dictionaries_example = retrive_memories-dictionaries [] (rain ∷ [])
