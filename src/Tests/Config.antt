-- ===== src/Tests/Config.antt =====
-- The emulators' configuration, and the cache as a map.
use raoffline_proxy.Prelude.{◌≡◌, refl, false, some, none, List, [], ◌∷◌, Text, codes, text_eq, any}
use raoffline_proxy.Lines.{is_break}
use raoffline_proxy.Lines.Laws.{IsPlain, IsLine}
use raoffline_proxy.Storage.CacheLaws.{IsCache}
use raoffline_proxy.Storage.MapSpec.{CacheOp, run, run_spec, view, run_refines}
use raoffline_proxy.EmulatorConfig.{present, previous_of}
use raoffline_proxy.EmulatorConfig.BatoceraConf.{
  retroachievements_key, retroachievements_hardcore_key, cheevos_custom_host_key, is_value, quoted,
  extract_value, patch_batocera_conf, revert_batocera_conf,
}
use raoffline_proxy.EmulatorConfig.BatoceraConf.Laws.{IsKey}
use raoffline_proxy.EmulatorConfig.BatoceraConf.RoundTrip.{revert-patch}
use raoffline_proxy.Tests.Data.{cached}

abbrev proxy : Text
proxy = codes "127.0.0.1:8080"

-- The user plays in hardcore mode.
abbrev conf : Text
conf = codes "wifi=1\nglobal.retroachievements.hardcore=1\n"

conf-IsPlain : IsPlain conf
unfolding any is_break
conf-IsPlain = refl

proxy-IsLine : IsLine proxy
unfolding any is_break
proxy-IsLine = refl

conf-other : is_value (extract_value conf cheevos_custom_host_key) (quoted proxy) ≡ false
unfolding extract_value
conf-other = refl

revert-patch_example :
    (after : Text) × ((revert_batocera_conf proxy
        (patch_batocera_conf proxy (present (codes "c") conf)).1.previous
        (patch_batocera_conf proxy (present (codes "c") conf)).0).0
      ≡ present (codes "c") after)
    × ((j : Text)
        → IsKey j
        → text_eq retroachievements_key j ≡ false
        → text_eq (codes "global.cheevos_enable") j ≡ false
        → extract_value after j ≡ extract_value conf j)
revert-patch_example = revert-patch (codes "c") conf proxy conf-IsPlain proxy-IsLine conf-other

-- Patched once and reverted, the file is in hardcore mode again.
conf-reverted :
    let (patched, result) = patch_batocera_conf proxy (present (codes "c") conf) in
    (revert_batocera_conf proxy result.previous patched).0
    ≡ present
        (codes "c")
        (codes "wifi=1\nglobal.retroachievements.hardcore=1\nglobal.retroachievements=1\n")
unfolding patch_batocera_conf revert_batocera_conf
conf-reverted = refl

-- Patched twice, the second patch moves a line, so it does not count as patched already, and what it
-- captures is what the first one wrote.
conf_again :
    let (patched, first) = patch_batocera_conf proxy (present (codes "c") conf) in
    let (again, second) = patch_batocera_conf proxy patched in
    (second.already_patched ≡ false)
    × (previous_of retroachievements_hardcore_key second.previous ≡ some (codes "0"))
unfolding patch_batocera_conf previous_of
conf_again = (refl, refl)

cached-IsCache : IsCache cached.api_cache
unfolding text_eq
cached-IsCache = record { keys = ((refl, tt), (tt, tt)); ids = ((refl, tt), (tt, tt)) }

abbrev calls : List CacheOp
calls =
    CacheOp.upsert 9 (codes "ping") (codes "ok") none none
    ∷ CacheOp.delete (codes "patch:7:bob")
    ∷ CacheOp.evict 5
    ∷ []

run_refines_example :
    IsCache (run calls cached).api_cache × (view (run calls cached) ≡ run_spec calls (view cached))
run_refines_example = run_refines calls cached cached-IsCache
