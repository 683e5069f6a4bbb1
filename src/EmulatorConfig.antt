-- ===== src/EmulatorConfig.antt =====
-- Editing an emulator's configuration: what the modules `batocera_conf`, `dolphin_cfg`, `ppsspp_cfg` and
-- `achievements_ini` of linux/raofflineproxy have in common. Where a file is, is an argument, and so is the
-- proxy's address.
pub mod BatoceraConf
use raoffline_proxy.Prelude.{
  Bool, true, false, Option, none, some, List, [], ◌∷◌, Text, text_eq, if◌then◌else◌,
}

-- The file that was detected: none, a path where nothing is, or a path with its content.
pub data ConfigFile : Type 0 where
  undetected : ConfigFile
  missing : Text → ConfigFile
  present : Text → Text → ConfigFile

-- The dict of the values before a patch: a key stands in it with a value, or with None.
abbrev pub Previous : Type 0
Previous = List (Text × Option Text)

-- `previous.get(key)`
unfoldable pub previous_of : Text → Previous → Option Text
previous_of key [] = none
previous_of key ((k, v) ∷ rest) =
    let later = previous_of key rest in if text_eq k key then v else later

pub record PatchResult : Type 0 where
  pub exists : Bool
  pub changed : Bool
  pub already_patched : Bool
  pub path : Option Text
  pub previous : Previous

pub record RevertResult : Type 0 where
  pub exists : Bool
  pub changed : Bool
  pub path : Option Text

abbrev pub not_patched : Option Text → PatchResult
not_patched path = record {
  exists = false;
  changed = false;
  already_patched = false;
  path = path;
  previous = [];
}

abbrev pub not_reverted : Option Text → RevertResult
not_reverted path = record { exists = false; changed = false; path = path }

-- What the state of the patches keeps of one file.
pub record SavedState : Type 0 where
  pub previous : Option Previous
  pub path : Option Text

-- `store_…_previous`: the values that were captured first stay while the file is patched already.
unfoldable pub store_previous : PatchResult → SavedState → SavedState
store_previous result state = record {
  previous =
      if result.already_patched
      then elim state.previous [ none ↦ some result.previous | some first ↦ some first ]
      else some result.previous;
  path = result.path;
}

-- `dict(previous)`, with None under the key if the proxy's own value stands there.
unfoldable pub sanitize : Text → Text → Previous → Previous
unfolding previous_of text_eq
sanitize key own previous = elim (previous_of key previous) [
  | none ↦ previous
  | some v ↦ if text_eq v own then (key, none) ∷ previous else previous
]
