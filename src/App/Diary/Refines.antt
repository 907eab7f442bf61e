-- ===== src/App/Diary/Refines.antt =====
-- The database as a diary: a map from keys to memories, for each user.
use Prim.Native.String.{String}
use text.Mathlib.Text.{◌==◌}
use text.Mathlib.TextEquality.{eq_iff}
use mathlib.Core.List.{map, append-nil, append_assoc}
use daily_diary.Base.{◌≡◌, refl, sym, ap, ◌∙◌, arith, List, [], ◌∷◌, ◌++◌, false}
use daily_diary.Base.{if◌then◌else◌, Option, none, some}
use daily_diary.App.Diary.{Memory, Dictionary, Database, memories_dictionary, one_memory}
use daily_diary.App.Diary.{retrive_memories, add_memories_btn_pressed, edit_btn_pressed, saved}
use daily_diary.App.Diary.{done_btn_pressed, delete_ok}

-- What is saved is what is read back.
one_memory-dictionary : (m : Memory) → one_memory (memories_dictionary m) ≡ some m
unfolding one_memory memories_dictionary
one_memory-dictionary m = refl

-- The dictionaries that `doneBtnPressed` saves are read back by `retriveMemories` as the same
-- memories, behind those of the array, without a forced lookup failing.
pub retrive_memories-dictionaries :
    (array ms : List Memory)
    → retrive_memories array (map memories_dictionary ms) ≡ some (array ++ ms)
unfolding retrive_memories
retrive_memories-dictionaries array [] = ap (λ t. some t) (sym (append-nil array))
retrive_memories-dictionaries array (m ∷ ms) =
    rw (retrive_memories, one_memory-dictionary m)
      (retrive_memories-dictionaries (array ++ (m ∷ [])) ms
        ∙ ap (λ t. some t) (append_assoc array (m ∷ []) ms))

-- What a user does: add a memory, edit one that is shown, delete one. The texts are those of the
-- form, and for a new memory what `random()` drew.
pub data Action : Type 0 where
  add : String → String → String → String → Action
  edit : Memory → String → String → String → Action
  delete : String → Action

-- A diary, and what the actions mean for it.
abbrev pub Diary : Type 0
Diary = String → Option Memory

abbrev pub write : Memory → Diary → Diary
write m diary key = if m.memory_id == key then some m else diary key

abbrev pub erase : String → Diary → Diary
erase memory_id diary key = if memory_id == key then none else diary key

abbrev pub meaning : Action → Diary → Diary
meaning (add drawn today title body) diary =
    write
      (record { memory_id = drawn; memory_title = title; memory_body = body; memory_date = today })
      diary
meaning (edit m today title body) diary =
    write (record m { memory_title = title; memory_body = body; memory_date = today }) diary
meaning (delete memory_id) diary = erase memory_id diary

abbrev pub meanings : List Action → Diary → Diary
meanings [] diary = diary
meanings (a ∷ actions) diary = meanings actions (meaning a diary)

abbrev pub encoded : Option Memory → Option Dictionary
encoded none = none
encoded (some m) = some (memories_dictionary m)

module _ (firebase : Database) (user : String) where
  open firebase use {Db, value, value-set, value-remove}

  unfoldable pub act : Action → Db → Db
  act (add drawn today title body) db =
      done_btn_pressed firebase user add_memories_btn_pressed drawn today title body db
  act (edit m today title body) db =
      done_btn_pressed firebase user (edit_btn_pressed m) "" today title body db
  act (delete memory_id) db = delete_ok firebase user memory_id db

  unfoldable pub acts : List Action → Db → Db
  acts [] db = db
  acts (a ∷ actions) db = acts actions (act a db)

  -- The user's part of the database holds just the diary.
  abbrev pub Represents : Db → Diary → Type 0
  Represents db diary = (key : String) → value db user key ≡ encoded (diary key)

  encoded-write :
      (m : Memory) (diary : Diary) (key : String)
      → encoded (write m diary key)
        ≡ (if m.memory_id == key then some (memories_dictionary m) else encoded (diary key))
  encoded-write m diary key = ground arith

  act-Represents :
      (a : Action) (db : Db) (diary : Diary)
      → Represents db diary
      → Represents (act a db) (meaning a diary)
  unfolding act done_btn_pressed delete_ok saved add_memories_btn_pressed edit_btn_pressed
  act-Represents (add drawn today title body) db diary h key = ground (
    arith,
    h key,
    (eq_iff user user).1 refl,
    value-set db user drawn
        (memories_dictionary (record {
          memory_id = drawn;
          memory_title = title;
          memory_body = body;
          memory_date = today;
        }))
        user key,
  )
  act-Represents (edit m today title body) db diary h key = ground (
    arith,
    h key,
    (eq_iff user user).1 refl,
    value-set db user m.memory_id
        (memories_dictionary
          (record m { memory_title = title; memory_body = body; memory_date = today }))
        user key,
  )
  act-Represents (delete memory_id) db diary h key =
      ground (arith, h key, (eq_iff user user).1 refl, value-remove db user memory_id user key)

  -- Over a database that keeps what is set, where the entries of a user hold just a diary (a map
  -- from keys to memories), adding, editing and deleting memories on the screens, in any order,
  -- leaves just the diary that the actions mean: a memory that is added stands under the key that
  -- was drawn, an edited one replaces the memory it was opened from, and a deleted one is gone.
  pub acts-Represents :
      (actions : List Action) (db : Db) (diary : Diary)
      → Represents db diary
      → Represents (acts actions db) (meanings actions diary)
  unfolding acts
  acts-Represents [] db diary h = h
  acts-Represents (a ∷ actions) db diary h =
      acts-Represents actions (act a db) (meaning a diary) (act-Represents a db diary h)

  act-others :
      (a : Action) (db : Db) (other key : String)
      → (user == other) ≡ false
      → value (act a db) other key ≡ value db other key
  unfolding act done_btn_pressed delete_ok
  act-others (add drawn today title body) db other key h = ground (
    arith,
    value-set db user (saved add_memories_btn_pressed drawn today title body).memory_id
        (memories_dictionary (saved add_memories_btn_pressed drawn today title body)) other key,
  )
  act-others (edit m today title body) db other key h = ground (
    arith,
    value-set db user (saved (edit_btn_pressed m) "" today title body).memory_id
        (memories_dictionary (saved (edit_btn_pressed m) "" today title body)) other key,
  )
  act-others (delete memory_id) db other key h =
      ground (arith, value-remove db user memory_id other key)

  -- What a user adds, edits and deletes changes no entry of a user of another name.
  pub acts-others :
      (actions : List Action) (db : Db) (other key : String)
      → (user == other) ≡ false
      → value (acts actions db) other key ≡ value db other key
  unfolding acts
  acts-others [] db other key h = refl
  acts-others (a ∷ actions) db other key h =
      acts-others actions (act a db) other key h ∙ act-others a db other key h
