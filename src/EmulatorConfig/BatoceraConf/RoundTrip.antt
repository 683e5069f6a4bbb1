-- ===== src/EmulatorConfig/BatoceraConf/RoundTrip.antt =====
-- What patching a file of linux/raofflineproxy/batocera_conf.py and reverting it leaves of its values.
use raoffline_proxy.Prelude.{
  ◌≡◌, refl, sym, ap, ◌∙◌, false, Option, none, some, List, [], ◌∷◌, Text, codes, arith, any, map,
  Bool-cases, Option-cases, inl, inr, text_eq, text_eq_iff,
}
use raoffline_proxy.Lines.{is_break}
use raoffline_proxy.Lines.Laws.{IsLine, IsPlain, any-append}
use raoffline_proxy.EmulatorConfig.{present, Previous, previous_of, sanitize}
use raoffline_proxy.EmulatorConfig.BatoceraConf.{
  retroachievements_key, retroachievements_hardcore_key, retroarch_cheevos_enable_key,
  cheevos_custom_host_key, cheevos_hardcore_key, extract_value, drop_keys, build_patched,
  build_reverted, captured, captured_keys, quoted, is_value, patch_batocera_conf,
  revert_batocera_conf,
}
use raoffline_proxy.EmulatorConfig.BatoceraConf.Laws.{IsKey, updated, if_there}
use raoffline_proxy.EmulatorConfig.BatoceraConf.Edits.{
  Reads, upsert-Reads, restore-Reads, extract-IsLine,
}

abbrev Readings : Type 0
Readings = Text → Option Text

abbrev set_to : Text → Text → Readings → Readings
set_to k v reads j = updated k j (some v) (reads j)

abbrev put_back : Text → Option Text → Readings → Readings
put_back k value reads j = updated k j (if_there (reads k) value) (reads j)

abbrev patched_reads : Text → Readings → Readings
patched_reads proxy reads = set_to cheevos_hardcore_key (codes "\"false\"") (
    set_to cheevos_custom_host_key (quoted proxy) (
      set_to retroarch_cheevos_enable_key (codes "\"true\"") (
        set_to retroachievements_hardcore_key (codes "0") (
          set_to retroachievements_key (codes "1") (
            put_back cheevos_hardcore_key none (
              put_back retroarch_cheevos_enable_key none
                (put_back (codes "global.cheevos_enable") none reads)))))))

abbrev reverted_reads : Previous → Readings → Readings
reverted_reads previous reads =
    put_back cheevos_hardcore_key (previous_of cheevos_hardcore_key previous) (
      put_back cheevos_custom_host_key (previous_of cheevos_custom_host_key previous) (
        put_back retroarch_cheevos_enable_key (previous_of retroarch_cheevos_enable_key previous) (
          put_back retroachievements_hardcore_key
            (previous_of retroachievements_hardcore_key previous) reads)))

quoted-IsLine : (s : Text) → IsLine s → IsLine (quoted s)
unfolding any is_break
quoted-IsLine s h = any-append is_break s (codes "\"") ∙ ground arith

patched-Reads :
    (content proxy : Text) (reads : Readings)
    → IsLine proxy
    → Reads content reads
    → Reads (build_patched content proxy) (patched_reads proxy reads)
unfolding build_patched drop_keys any is_break
patched-Reads content proxy reads line h =
    let a =
      restore-Reads content (codes "global.cheevos_enable") none reads refl (λ v e. absurd cc) h in
    let b = restore-Reads _ retroarch_cheevos_enable_key none _ refl (λ v e. absurd cc) a in
    let c = restore-Reads _ cheevos_hardcore_key none _ refl (λ v e. absurd cc) b in
    let d = upsert-Reads _ retroachievements_key (codes "1") _ refl refl c in
    let e = upsert-Reads _ retroachievements_hardcore_key (codes "0") _ refl refl d in
    let f = upsert-Reads _ retroarch_cheevos_enable_key (codes "\"true\"") _ refl refl e in
    let g =
      upsert-Reads _ cheevos_custom_host_key (quoted proxy) _ refl (quoted-IsLine proxy line) f in
    upsert-Reads _ cheevos_hardcore_key (codes "\"false\"") _ refl refl g

reverted-Reads :
    (content : Text) (previous : Previous) (reads : Readings)
    → ((k v : Text) → previous_of k previous ≡ some v → IsLine v)
    → Reads content reads
    → Reads (build_reverted content previous) (reverted_reads previous reads)
unfolding build_reverted any is_break
reverted-Reads content previous reads lines h =
    let a =
      restore-Reads content retroachievements_hardcore_key _ reads refl
        (lines retroachievements_hardcore_key) h in
    let b =
      restore-Reads _ retroarch_cheevos_enable_key _ _ refl (lines retroarch_cheevos_enable_key)
        a in
    let c = restore-Reads _ cheevos_custom_host_key _ _ refl (lines cheevos_custom_host_key) b in
    restore-Reads _ cheevos_hardcore_key _ _ refl (lines cheevos_hardcore_key) c

-- The values that a patch captures, put back into the file that it patched.
back_reads :
    (content proxy j : Text)
    → text_eq retroachievements_key j ≡ false
    → text_eq (codes "global.cheevos_enable") j ≡ false
    → reverted_reads (captured content) (patched_reads proxy (extract_value content)) j
      ≡ extract_value content j
unfolding captured previous_of text_eq
back_reads content proxy j toggle obsolete = elim (Bool-cases (text_eq cheevos_hardcore_key j)) [
  | inl a ↦ rw (← (text_eq_iff cheevos_hardcore_key j).0 a) refl
  | inr a ↦ elim (Bool-cases (text_eq cheevos_custom_host_key j)) [
    | inl b ↦ rw (← (text_eq_iff cheevos_custom_host_key j).0 b) refl
    | inr b ↦ elim (Bool-cases (text_eq retroarch_cheevos_enable_key j)) [
      | inl c ↦ rw (← (text_eq_iff retroarch_cheevos_enable_key j).0 c) refl
      | inr c ↦ elim (Bool-cases (text_eq retroachievements_hardcore_key j)) [
        | inl d ↦ rw (← (text_eq_iff retroachievements_hardcore_key j).0 d) refl
        | inr d ↦ rw (a, b, c, d, toggle, obsolete) refl
      ]
    ]
  ]
]

values-IsLine :
    (content k v : Text) (keys : List Text)
    → previous_of k (map (λ (key : Text). (key, extract_value content key)) keys) ≡ some v
    → IsLine v
unfolding previous_of
values-IsLine content k v [] e = absurd cc
values-IsLine content k v (key ∷ keys) e = elim (Bool-cases (text_eq key k)) [
  | inl here ↦ extract-IsLine content key v (ground arith)
  | inr there ↦ values-IsLine content k v keys (ground arith)
]

captured-IsLine : (content k v : Text) → previous_of k (captured content) ≡ some v → IsLine v
unfolding captured
captured-IsLine content k v e = values-IsLine content k v captured_keys e

sanitize_other :
    (key own : Text) (previous : Previous)
    → is_value (previous_of key previous) own ≡ false
    → sanitize key own previous ≡ previous
unfolding sanitize
sanitize_other key own previous h = elim (Option-cases (previous_of key previous)) [
  | inl e ↦ rw (sanitize, e) refl
  | inr (v, e) ↦
      let apart : text_eq v own ≡ false = ap (λ o. is_value o own) (sym e) ∙ h in
      rw (sanitize, e, apart) refl
]

captured_host :
    (content : Text)
    → previous_of cheevos_custom_host_key (captured content)
      ≡ extract_value content cheevos_custom_host_key
unfolding captured previous_of text_eq
captured_host content = refl

-- What the file reads as after a patch and a revert with what the patch captured, if its only line break
-- is the newline and its host was not the proxy's: every key as before, but for the toggle of the
-- achievements, which stays on, and an obsolete key, which stays away.
pub revert-patch :
    (path content proxy : Text)
    → IsPlain content
    → IsLine proxy
    → is_value (extract_value content cheevos_custom_host_key) (quoted proxy) ≡ false
    → (after : Text) × ((revert_batocera_conf proxy
          (patch_batocera_conf proxy (present path content)).1.previous
          (patch_batocera_conf proxy (present path content)).0).0
        ≡ present path after)
      × ((j : Text)
          → IsKey j
          → text_eq retroachievements_key j ≡ false
          → text_eq (codes "global.cheevos_enable") j ≡ false
          → extract_value after j ≡ extract_value content j)
unfolding patch_batocera_conf revert_batocera_conf
revert-patch path content proxy plain line other =
    let previous = captured content in
    let patched = patched-Reads content proxy (extract_value content) line (plain, λ j n. refl) in
    let reverted = reverted-Reads _ previous _ (captured-IsLine content) patched in
    (
      build_reverted (build_patched content proxy) previous,
      ap (λ p. present path (build_reverted (build_patched content proxy) p))
          (sanitize_other cheevos_custom_host_key (quoted proxy) previous
            (ap (λ o. is_value o (quoted proxy)) (captured_host content) ∙ other)),
      λ j n toggle obsolete. reverted.1 j n ∙ back_reads content proxy j toggle obsolete,
    )
