-- ===== src/Tests/Config.antt =====
-- config.py on concrete inputs.
use sockpost.Common.{◌≡◌, refl, true, false, ◌∷◌, [], codes, text_eq, text_instance}
use sockpost.Common.Int.{pos}
use sockpost.Common.Dict.{get}
use sockpost.Python.Space.{strip, lower}
use sockpost.Python.Decimal.{int_text, digit}
use sockpost.Config.{Environment, env_bool, load_settings}

abbrev environment : Environment
environment =
    (codes "SOCKPOST_MAX_FORWARD_HOPS", codes " 5 ")
    ∷ (codes "SOCKPOST_DRAIN_BATCH", codes "many")
    ∷ (codes "SOCKPOST_AUTOSTART", codes "No")
    ∷ []

hops_set : (load_settings environment).max_forward_hops ≡ pos 5
unfolding load_settings get text_eq strip int_text digit
hops_set = refl

batch_default : (load_settings environment).drain_batch ≡ pos 10
unfolding load_settings get text_eq strip int_text digit
batch_default = refl

autostart_off : env_bool (codes "AUTOSTART") true environment ≡ false
unfolding env_bool get text_eq strip lower
autostart_off = refl
