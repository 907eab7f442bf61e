-- ===== src/App/Diary.antt =====
-- The memories: Memory.swift, and what addMemoryViewController, showMemoryViewController and
-- myMemoriesViewController do with the database.
pub mod Refines
use Prim.Native.String.{String}
use text.Mathlib.Text.{◌==◌}
use daily_diary.Base.{◌≡◌, List, [], ◌∷◌, ◌++◌, ◌&&◌, if◌then◌else◌, Option, none, some}

pub record Memory : Type 0 where
  pub memory_id : String
  pub memory_title : String
  pub memory_body : String
  pub memory_date : String

-- A `Dictionary<String,String>`.
abbrev pub Dictionary : Type 0
Dictionary = List (String × String)

abbrev pub value_of : Dictionary → String → Option String
value_of [] key = none
value_of ((k, v) ∷ d) key = if k == key then some v else value_of d key

-- Firebase's database, as the app uses it: the values at memory/user/key. A user and a key are one
-- component of the path, as the uid and the letters of `random()` are: no key holds a "/", which
-- Firebase would take for a path.
pub record Database : Type 1 where
  pub Db : Type 0
  pub value : Db → String → String → Option Dictionary
  pub set_value : Db → String → String → Dictionary → Db
  pub remove_value : Db → String → String → Db
  pub value-set :
      (db : Db) (user key : String) (d : Dictionary) (user' key' : String)
      → value (set_value db user key d) user' key'
        ≡ (if user == user' && key == key' then some d else value db user' key')
  pub value-remove :
      (db : Db) (user key user' key' : String)
      → value (remove_value db user key) user' key'
        ≡ (if user == user' && key == key' then none else value db user' key')

-- `memoriesDictionary` of `doneBtnPressed`.
unfoldable pub memories_dictionary : Memory → Dictionary
memories_dictionary m =
    ("memoryID", m.memory_id)
    ∷ ("memoryTitle", m.memory_title)
    ∷ ("memoryBody", m.memory_body)
    ∷ ("memoryDate", m.memory_date)
    ∷ []

-- The four forced lookups of `retriveMemories`; `none` is the crash of a key that is missing.
unfoldable pub one_memory : Dictionary → Option Memory
one_memory d = elim (value_of d "memoryID") [
  | none ↦ none
  | some i ↦ elim (value_of d "memoryTitle") [
    | none ↦ none
    | some t ↦ elim (value_of d "memoryBody") [
      | none ↦ none
      | some b ↦ elim (value_of d "memoryDate") [
        | none ↦ none
        | some day ↦
            some (record { memory_id = i; memory_title = t; memory_body = b; memory_date = day })
      ]
    ]
  ]
]

-- `observe(.childAdded)`: each child that is reported is appended.
unfoldable pub retrive_memories : List Memory → List Dictionary → Option (List Memory)
retrive_memories array [] = some array
retrive_memories array (d ∷ added) = elim (one_memory d) [
  | none ↦ none
  | some m ↦ retrive_memories (array ++ (m ∷ [])) added
]

-- addMemoryViewController: `initator` and the fields that the presenting controller sets.
pub record AddMemory : Type 0 where
  pub initator : String
  pub memory_id : String
  pub memory_title : String
  pub memory_body : String

-- `addMemoriesBtnPressed`, and `editBtnPressed` of a memory that is shown.
unfoldable pub add_memories_btn_pressed : AddMemory
add_memories_btn_pressed = record {
  initator = "vc1";
  memory_id = "";
  memory_title = "";
  memory_body = "";
}

unfoldable pub edit_btn_pressed : Memory → AddMemory
edit_btn_pressed m = record {
  initator = "vc2";
  memory_id = m.memory_id;
  memory_title = m.memory_title;
  memory_body = m.memory_body;
}

-- The memory that `doneBtnPressed` saves. `drawn` is what `random()` gives, `today` the date of
-- `viewDidLoad`; title and body are those of the text fields.
unfoldable pub saved : AddMemory → String → String → String → String → Memory
saved vc drawn today title body = record {
  memory_id = (if vc.initator == "vc1" then drawn else vc.memory_id);
  memory_title = title;
  memory_body = body;
  memory_date = today;
}

module _ (firebase : Database) where
  open firebase use {Db, set_value, remove_value}

  unfoldable pub done_btn_pressed : String → AddMemory → String → String → String → String → Db → Db
  done_btn_pressed user vc drawn today title body db =
      let m = saved vc drawn today title body in
      set_value db user m.memory_id (memories_dictionary m)

  -- OK on the alert of `deleteBtnPressed`.
  unfoldable pub delete_ok : String → String → Db → Db
  delete_ok user memory_id db = remove_value db user memory_id
