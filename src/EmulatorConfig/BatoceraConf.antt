-- ===== src/EmulatorConfig/BatoceraConf.antt =====
-- linux/raofflineproxy/batocera_conf.py: the proxy's host in batocera.conf or knulli.conf, lines of the
-- form `key=value`.
pub mod Laws
pub mod Edits
pub mod RoundTrip
use raoffline_proxy.Prelude.{
  Bool, true, false, ◌&&◌, ◌||◌, not, Option, none, some, List, [], ◌∷◌, ◌++◌, map, Text, codes,
  text_eq, is_empty, starts_with, drop_prefix, if◌then◌else◌,
}
use raoffline_proxy.Lines.{splitlines, join_lines, ends_with_newline}
use raoffline_proxy.EmulatorConfig.{
  ConfigFile, undetected, missing, present, Previous, previous_of, PatchResult, RevertResult,
  not_patched, not_reverted, sanitize,
}

abbrev pub retroachievements_key : Text
retroachievements_key = codes "global.retroachievements"

abbrev pub retroachievements_hardcore_key : Text
retroachievements_hardcore_key = codes "global.retroachievements.hardcore"

abbrev pub retroarch_cheevos_enable_key : Text
retroarch_cheevos_enable_key = codes "global.retroarch.cheevos_enable"

abbrev pub cheevos_custom_host_key : Text
cheevos_custom_host_key = codes "global.retroarch.cheevos_custom_host"

abbrev pub cheevos_hardcore_key : Text
cheevos_hardcore_key = codes "global.retroarch.cheevos_hardcore_mode_enable"

abbrev pub obsolete_keys : List Text
obsolete_keys =
    codes "global.cheevos_enable" ∷ retroarch_cheevos_enable_key ∷ cheevos_hardcore_key ∷ []

abbrev pub key_prefix : Text → Text
key_prefix key = key ++ codes "="

-- The line `key=value`.
abbrev pub setting : Text → Text → Text
setting key value = key ++ 61 ∷ value

unfoldable pub value_in : Text → List Text → Option Text
unfolding starts_with drop_prefix
value_in prefix [] = none
value_in prefix (l ∷ ls) =
    let later = value_in prefix ls in
    if starts_with l prefix then some (drop_prefix l prefix) else later

unfoldable pub extract_value : Text → Text → Option Text
unfolding splitlines value_in
extract_value content key = value_in (key_prefix key) (splitlines content)

-- The lines with the first one of the key replaced; none if there is none.
unfoldable pub replace_line : Text → Text → List Text → Option (List Text)
unfolding starts_with
replace_line prefix line [] = none
replace_line prefix line (l ∷ ls) =
    let later = replace_line prefix line ls in
    if starts_with l prefix
    then some (line ∷ ls)
    else elim later [ none ↦ none | some ms ↦ some (l ∷ ms) ]

abbrev pub newline_of : Bool → Text
newline_of b = if b then codes "\n" else []

-- The file with the lines, or else with a new line at its end.
unfoldable pub write_lines : Text → Text → Option (List Text) → Text
unfolding join_lines ends_with_newline is_empty
write_lines content line (some lines) = join_lines lines ++ newline_of (ends_with_newline content)
write_lines content line none =
    let whole = ends_with_newline content || is_empty content in
    (if whole then content else content ++ codes "\n") ++ line ++ newline_of whole

unfoldable pub upsert_value : Text → Text → Text → Text
unfolding splitlines replace_line write_lines
upsert_value content key value =
    write_lines content (setting key value)
      (replace_line (key_prefix key) (setting key value) (splitlines content))

-- The first line of the key gets the value, if there is one; every other line of the key goes.
unfoldable pub restore_lines : Text → Text → Option Text → List Text → List Text
unfolding starts_with
restore_lines key prefix value [] = []
restore_lines key prefix value (l ∷ ls) = elim (starts_with l prefix) [
  | false ↦ l ∷ restore_lines key prefix value ls
  | true ↦ elim value [
    | none ↦ restore_lines key prefix none ls
    | some v ↦ setting key v ∷ restore_lines key prefix none ls
  ]
]

unfoldable pub restore_value : Text → Text → Option Text → Text
unfolding splitlines restore_lines join_lines ends_with_newline is_empty
restore_value content key value =
    let result = join_lines (restore_lines key (key_prefix key) value (splitlines content)) in
    if ends_with_newline content && not (is_empty result) then result ++ codes "\n" else result

unfoldable pub drop_keys : List Text → Text → Text
unfolding restore_value
drop_keys [] content = content
drop_keys (key ∷ keys) content = drop_keys keys (restore_value content key none)

abbrev pub quoted : Text → Text
quoted s = codes "\"" ++ s ++ codes "\""

unfoldable pub build_patched : Text → Text → Text
unfolding drop_keys upsert_value
build_patched content proxy =
    let dropped = drop_keys obsolete_keys content in
    let toggled = upsert_value dropped retroachievements_key (codes "1") in
    let softcore = upsert_value toggled retroachievements_hardcore_key (codes "0") in
    let enabled = upsert_value softcore retroarch_cheevos_enable_key (codes "\"true\"") in
    let hosted = upsert_value enabled cheevos_custom_host_key (quoted proxy) in
    upsert_value hosted cheevos_hardcore_key (codes "\"false\"")

-- The master toggle stays as it is.
unfoldable pub build_reverted : Text → Previous → Text
unfolding restore_value previous_of
build_reverted content previous =
    let back = λ (text key : Text). restore_value text key (previous_of key previous) in
    back
      (back (back (back content retroachievements_hardcore_key) retroarch_cheevos_enable_key)
        cheevos_custom_host_key)
      cheevos_hardcore_key

abbrev pub captured_keys : List Text
captured_keys =
    retroachievements_key ∷ retroachievements_hardcore_key ∷ retroarch_cheevos_enable_key
    ∷ cheevos_custom_host_key ∷ cheevos_hardcore_key ∷ []

unfoldable pub captured : Text → Previous
unfolding extract_value
captured content = map (λ (key : Text). (key, extract_value content key)) captured_keys

-- `value == text` of a value that may be None.
abbrev pub is_value : Option Text → Text → Bool
is_value none text = false
is_value (some v) text = text_eq v text

-- The file after the call, and what the call reports.
unfoldable pub patch_batocera_conf : Text → ConfigFile → ConfigFile × PatchResult
unfolding build_patched captured previous_of text_eq
patch_batocera_conf proxy undetected = (undetected, not_patched none)
patch_batocera_conf proxy (missing path) = (missing path, not_patched (some path))
patch_batocera_conf proxy (present path original) =
    let transformed = build_patched original proxy in
    let previous = captured original in
    let same = text_eq transformed original in
    (
      present path transformed,
      record {
        exists = true;
        changed = not same;
        already_patched =
            same && is_value (previous_of cheevos_custom_host_key previous) (quoted proxy);
        path = some path;
        previous = previous;
      },
    )

unfoldable pub revert_batocera_conf : Text → Previous → ConfigFile → ConfigFile × RevertResult
unfolding build_reverted sanitize text_eq
revert_batocera_conf proxy previous undetected = (undetected, not_reverted none)
revert_batocera_conf proxy previous (missing path) = (missing path, not_reverted (some path))
revert_batocera_conf proxy previous (present path current) =
    let transformed =
      build_reverted current (sanitize cheevos_custom_host_key (quoted proxy) previous) in
    (
      present path transformed,
      record { exists = true; changed = not (text_eq transformed current); path = some path },
    )

unfoldable pub enforce_batocera_conf : Text → ConfigFile → ConfigFile × Bool
unfolding build_patched text_eq
enforce_batocera_conf proxy undetected = (undetected, false)
enforce_batocera_conf proxy (missing path) = (missing path, false)
enforce_batocera_conf proxy (present path current) =
    let transformed = build_patched current proxy in
    (present path transformed, not (text_eq transformed current))
